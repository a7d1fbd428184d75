-- ===== src/DeviceControl.antt =====
-- NovaHypervisor/DeviceControl.cpp: the requests of the client, and the calls of NovaHypervisor/VmxHelper.cpp
-- that each processor makes for them. The broadcast of the system, the VMCALL instruction, and the check of
-- the system for addresses are arguments.
pub mod Requests
mod Tests
use nova_hypervisor.Base.{
  ℕ, ◌%◌, ◌^◌, ◌-◌, Bool, true, false, not, ◌&&◌, ◌||◌, ◌==◌, ◌!=◌, ltb, truthy, if◌then◌else◌,
  bit_and, Option, none, some,
}
use nova_hypervisor.Ept.Hooks.{page_align}
use nova_hypervisor.Ept.PageHook.{ept_page_read, ept_page_write}

-- The values of `NTSTATUS` as words of 32 bits.
abbrev pub status_success : ℕ
status_success = 0

abbrev pub status_invalid_parameter : ℕ
status_invalid_parameter = 3221225485

abbrev pub status_invalid_device_request : ℕ
status_invalid_device_request = 3221225488

-- `HookedPage`, of 16 bytes.
pub record HookedPage : Type 0 where
  pub permissions : ℕ
  pub address : ℕ

-- The code and the size of the input of a request, and the buffer of the system read as a `HookedPage` and
-- as a `UINT64`.
pub record Irp : Type 0 where
  pub code : ℕ
  pub size : ℕ
  pub buffer : HookedPage
  pub protected_memory : ℕ

abbrev pub ioctl_protect_address_range : ℕ
ioctl_protect_address_range = 2147491840

abbrev pub ioctl_unprotect_address_range : ℕ
ioctl_unprotect_address_range = 2147491844

abbrev pub valid_kernelmode_memory : ℕ → Bool
valid_kernelmode_memory address = ltb 0x8000000000000000 address && ltb address 0xFFFFFFFFFFFFFFFF

-- `EPT_MAX_PAGE_PERMISSIONS`.
abbrev pub ept_max_page_permissions : ℕ
ept_max_page_permissions = 7

module _ {S : Type 0} (asm_vmx_vmcall : ℕ → ℕ → ℕ → ℕ → S → S × ℕ) where
  -- A context that is null is `none`, or 0.
  unfoldable pub hook_page_by_vmcall : Option HookedPage → S → S × ℕ
  hook_page_by_vmcall none s = (s, status_invalid_parameter)
  hook_page_by_vmcall (some page) s = asm_vmx_vmcall 3 page.address page.permissions 0 s

  unfoldable pub unhook_page_by_vmcall : ℕ → S → S × ℕ
  unhook_page_by_vmcall address s =
      if not (truthy address) then (s, status_invalid_parameter) else asm_vmx_vmcall 6 address 0 0 s

  module _ (broadcast : (S → S × ℕ) → S → S × ℕ) (is_valid_address : ℕ → Bool) where
    -- Whether the page of a request may not be hooked.
    abbrev pub refuses : HookedPage → Bool
    refuses page =
        not (valid_kernelmode_memory page.address)
        || (page.permissions == 0
            || (ltb ept_max_page_permissions page.permissions
                || (truthy (bit_and page.permissions ept_page_write)
                      && not (truthy (bit_and page.permissions ept_page_read))
                    || not (is_valid_address (page_align page.address)))))

    -- The status that the request is completed with; the function itself returns success.
    unfoldable pub nova_device_control : Irp → S → S × ℕ
    nova_device_control irp s =
        if irp.code == ioctl_protect_address_range
        then if irp.size != 16 || refuses irp.buffer
          then (s, status_invalid_parameter)
          else broadcast (hook_page_by_vmcall (some irp.buffer)) s
        else if irp.code == ioctl_unprotect_address_range
        then if irp.size != 8 || not (valid_kernelmode_memory irp.protected_memory)
          then (s, status_invalid_parameter)
          else broadcast (unhook_page_by_vmcall irp.protected_memory) s
        else (s, status_invalid_device_request)
