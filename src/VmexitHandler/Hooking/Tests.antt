-- ===== src/VmexitHandler/Hooking/Tests.antt =====
-- A guest's call for a hook at a concrete input. Memory is mapped at its own physical address, and each
-- of its words is the entry of the page of 2 MB with the frame 3.
use nova_hypervisor.Base.{
  ℕ, ◌+◌, ◌*◌, ◌/◌, ◌%◌, ◌^◌, ◌≡◌, refl, true, false, ◌==◌, if◌then◌else◌, bit_and, none, some, [],
  arith, inl,
}
use nova_hypervisor.Vmcs.{vm_exit_reason}
use nova_hypervisor.Vmcs.Store.{fields}
use nova_hypervisor.Guest.{read, rax}
use nova_hypervisor.Ept.Mtrr.{get_memory_type}
use nova_hypervisor.Ept.Entry.{pml2_index, pml3_index, large_frame}
use nova_hypervisor.Ept.Table.{pml2_address}
use nova_hypervisor.Ept.Table.Fill.{Outside}
use nova_hypervisor.Ept.Table.Walk.{Translation, walk_pml2}
use nova_hypervisor.Ept.Hooks.{find_hook, get_hooked_page}
use nova_hypervisor.Ept.PageHook.{is_hook_exists}
use nova_hypervisor.Ept.PageHook.Laws.{Splits}
use nova_hypervisor.Vmx.{VmState}
use nova_hypervisor.VmexitHandler.Dispatch.{
  Platform, vmcall, is_self_vmcall, exit_reason_of, begin_exit, vmexit_handler,
}
use nova_hypervisor.VmexitHandler.Hooking.{
  AsksToHook, called, hooking, vmexit_handler-hook, vmexit_handler-protects,
}

-- The pool counts what it gave, 64 KB apart.
abbrev machine : Platform (ℕ → ℕ) ℕ
machine = record {
  readmsr = λ i. 0;
  cpuidex = λ leaf subleaf. (0, 0, 0, 0);
  readcr4 = 8192;
  vmclear_status = 0;
  hyperv_vmcall = λ c. c;
  vpid_supported = true;
  processor = 0;
  physical_of = λ a. a;
  virtual_of = λ a. a;
  mtrr = record { ranges = []; default_memory_type = 6 };
  ept_page_table = 1048576;
  free = λ a type pool. pool;
  allocate = λ type pool. (pool + 1, 16777216 + pool * 65536);
}

-- RCX, RDX, R8 and the three registers that name the hypervisor.
abbrev hook_regs : ℕ → ℕ
hook_regs i =
    if i == 1
    then 3
    else if i == 2
    then 6299650
    else if i == 8
    then 1
    else if i == 10
    then 310686010704
    else if i == 11
    then 94889840823372
    else if i == 12
    then 5642808406554530390
    else 7

abbrev calling : VmState (ℕ → ℕ) ℕ
calling = record {
  ept = record {
    cpu = record { vmcs = λ f. if f == 17410 then 18 else f; regs = hook_regs; effects = [] };
    pool = 0;
    memory = λ a. 6291591;
    hooked_pages = [];
    ept_pointer = 1048606;
    hooked_page = none;
    is_on_vmx_root = false;
    kernel_base_address = 0;
    kernel_size = 0;
  };
  is_launched = true;
  vmxoff_state = record { is_vmxoff_executed = false; guest_rip_after = 0; guest_rsp_after = 0 };
  vmcs_region_physical = 8192;
}

exits_by_vmcall :
    exit_reason_of (bit_and (read fields vm_exit_reason calling.ept.cpu) 65535) ≡ vmcall
unfolding exit_reason_of
exits_by_vmcall = refl

asks : AsksToHook fields machine calling.ept.cpu
unfolding is_self_vmcall
asks = (refl, refl, refl)

entry_of_page : pml2_address 1048576 6299648 ≡ 1056792
unfolding pml2_index pml3_index
entry_of_page = refl

apart : Outside 16777216 1024 (pml2_address 1048576 6299648)
apart = inl (omega (arith, entry_of_page))

not_hooked : is_hook_exists 6299648 (called fields machine calling) ≡ false
unfolding is_hook_exists get_hooked_page find_hook begin_exit
not_hooked = refl

splits :
    Splits machine.physical_of machine.virtual_of machine.mtrr machine.free machine.allocate 1048576
      true 6299650 1 16777216 1
      (called fields machine calling)
      4096
unfolding begin_exit
splits = (
  refl,
  refl,
  not_hooked,
  refl,
  omega arith,
  refl,
  refl,
  refl,
  apart,
  omega arith,
  refl,
  λ k h. omega arith,
)

vmexit_handler-hook_example :
    (let (s', off) = vmexit_handler fields machine calling in
      let r = hooking fields machine calling in
      (off ≡ false)
      × (s'.ept.memory ≡ r.0.memory)
      × (s'.ept.hooked_pages ≡ r.0.hooked_pages)
      × (s'.ept.pool ≡ r.0.pool)
      × (s'.ept.is_on_vmx_root ≡ false)
      × (s'.ept.cpu.regs rax ≡ (if r.1 then 0 else 18446744072635809793))
      × ((i : ℕ) → (i == rax) ≡ false → s'.ept.cpu.regs i ≡ hook_regs i)
      × (fields.vmread 26654 s'.ept.cpu.vmcs ≡ (26654 + 17420) % 2 ^ 64))
vmexit_handler-hook_example = vmexit_handler-hook fields machine calling exits_by_vmcall asks refl

vmexit_handler-protects_example :
    (let s' = (vmexit_handler fields machine calling).0 in
      let entry = pml2_address 1048576 6299648 in
      let big = large_frame 6291591 in
      let translated : ℕ → ℕ → Translation = λ guest rights. record {
        address = big * 2097152 + guest % 2097152;
        memory_type = get_memory_type machine.mtrr (big * 512 + guest / 4096 % 512) false % 8;
        rights = rights;
      } in
      (s'.ept.cpu.regs rax ≡ 0)
      × (fields.vmread 26654 s'.ept.cpu.vmcs ≡ (26654 + 17420) % 2 ^ 64)
      × ((guest : ℕ)
          → walk_pml2 machine.virtual_of s'.ept.memory entry guest ≡ (
              if guest / 4096 % 512 == 6299648 / 4096 % 512
              then if 1 % 2 == 0 then none else some (translated guest 1)
              else some (translated guest 7))))
vmexit_handler-protects_example =
    vmexit_handler-protects fields machine calling 16777216 4096 16842752 1 2 exits_by_vmcall asks
      refl splits refl refl
