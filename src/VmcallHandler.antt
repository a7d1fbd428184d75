-- ===== src/VmcallHandler.antt =====
-- NovaHypervisor/VmcallHandler.cpp: the calls of the guest to the hypervisor, its own and those that
-- are for Hyper-V.
pub mod Codes
pub mod Laws
mod Tests
use nova_hypervisor.Base.{ℕ, ◌/◌, ◌%◌, ◌^◌, Bool, true, false, not, ◌||◌, ◌==◌, if◌then◌else◌}
use nova_hypervisor.Guest.{Cpu, rcx}
use nova_hypervisor.VmxHelper.{invalidate_vpid, invalidate_ept}
use nova_hypervisor.VmcallHandler.Codes.{
  code, hv_switch_virtual_address_space, hv_flush_virtual_address_space,
  hv_flush_virtual_address_list, hv_call_flush_virtual_address_space_ex,
  hv_call_flush_virtual_address_list_ex, hv_call_flush_guest_physical_address_space,
  hv_call_flush_guest_physical_address_list,
}

-- The operations of other files that `VmcallHandler` calls, on the state of the hypervisor.
pub record VmcallOps (S : Type 0) : Type 0 where
  pub vmxoff : S → S
  pub root_mode_page_hook : ℕ → ℕ → S → S × Bool
  pub invalidate_ept : ℕ → S → S
  pub page_unhook_vmcall : ℕ → S → S × Bool
  pub unhook_all_pages_vmcall : S → S × Bool

-- The values of `NTSTATUS` that are returned.
pub data Status : Type 0 where
  success unsuccessful invalid_parameter : Status

abbrev status_of : Bool → Status
status_of true = success
status_of false = unsuccessful

-- The numbers are `VMCALL_TEST` to `VMCALL_UNHOOK_ALL_PAGES`.
unfoldable pub vmcall_handler : {S : Type 0} → VmcallOps S → ℕ → ℕ → ℕ → S → S × Status
vmcall_handler ops number param1 param2 s =
    if number == 1
    then (s, success)
    else if number == 2
    then (ops.vmxoff s, success)
    else if number == 3
    then (if param1 == 0
        then (s, invalid_parameter)
        else let (s', hooked) = ops.root_mode_page_hook param1 (param2 % 2 ^ 8) s in
          (s', status_of hooked))
    else if number == 5
    then (ops.invalidate_ept param1 s, success)
    else if number == 4
    then (ops.invalidate_ept 0 s, success)
    else if number == 6
    then (if param1 == 0
        then (s, invalid_parameter)
        else let (s', unhooked) = ops.page_unhook_vmcall param1 s in (s', status_of unhooked))
    else if number == 7
    then (let (s', unhooked) = ops.unhook_all_pages_vmcall s in (s', status_of unhooked))
    else (s, invalid_parameter)

-- `CallCode` of `HYPERCALL_INPUT_VALUE`.
abbrev pub call_code : ℕ → ℕ
call_code flags = flags % 2 ^ 16

abbrev pub flush_virtual_address_space : ℕ → Bool
flush_virtual_address_space n =
    n == code hv_switch_virtual_address_space
    || (n == code hv_flush_virtual_address_space
        || (n == code hv_flush_virtual_address_list
            || (n == code hv_call_flush_virtual_address_space_ex
                || n == code hv_call_flush_virtual_address_list_ex)))

abbrev pub flush_guest_physical_address_space : ℕ → Bool
flush_guest_physical_address_space n =
    n == code hv_call_flush_guest_physical_address_space
    || n == code hv_call_flush_guest_physical_address_list

-- `forward` is `AsmHypervVmcall`; the two pointers are not null.
unfoldable pub hypercall_handler : {V : Type 0} → (Cpu V → Cpu V) → Bool → ℕ → Cpu V → Cpu V × Bool
hypercall_handler forward vpid_supported ept_pointer c =
    let n = call_code (c.regs rcx) in
    let c' = forward c in
    (
      if flush_virtual_address_space n || flush_guest_physical_address_space n
          then invalidate_vpid vpid_supported 0 0 (invalidate_ept ept_pointer c')
          else c',
      true,
    )
