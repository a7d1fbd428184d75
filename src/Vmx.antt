-- ===== src/Vmx.antt =====
-- NovaHypervisor/Vmx.cpp and VmxHelper.cpp: the state of one processor, and how it leaves VMX.
pub mod Off
pub mod Setup
use nova_hypervisor.Base.{
  ℕ, ◌+◌, ◌-◌, ◌*◌, ◌/◌, ◌%◌, ◌^◌, Bool, true, false, truthy, if◌then◌else◌, bit_and, bit_or,
}
use nova_hypervisor.Vmcs.{
  VmcsStore, guest_cr3, guest_rip, guest_rsp, vm_exit_instruction_len, guest_fs_base, guest_gs_base,
  guest_gdtr_base, guest_gdtr_limit, guest_idtr_base, guest_idtr_limit,
}
use nova_hypervisor.Guest.{
  Cpu, emit, read, writemsr, writecr3, writecr4, lgdt, lidt, vmclear, vmxoff,
}
use nova_hypervisor.Ept.Hooks.{EptState}

-- `VMX_VMXOFF_STATE`.
pub record VmxoffState : Type 0 where
  pub is_vmxoff_executed : Bool
  pub guest_rip_after : ℕ
  pub guest_rsp_after : ℕ

-- The members of `VmState` that the handlers use; those of the hooks are in `ept`.
pub record VmState (V P : Type 0) : Type 0 where
  pub ept : EptState V P
  pub is_launched : Bool
  pub vmxoff_state : VmxoffState
  pub vmcs_region_physical : ℕ

abbrev pub on_cpu : {V P : Type 0} → (Cpu V → Cpu V) → VmState V P → VmState V P
on_cpu f s = let e = s.ept in record s { ept = record e { cpu = f e.cpu } }

-- CR4 with and without the bit that allows VMXON.
unfoldable pub enable_vmx_operation : {V : Type 0} → ℕ → Cpu V → Cpu V
enable_vmx_operation cr4 c = emit (writecr4 (bit_or cr4 8192)) c

unfoldable pub disable_vmx_operation : {V : Type 0} → ℕ → Cpu V → Cpu V
disable_vmx_operation cr4 c = emit (writecr4 (bit_and cr4 (2 ^ 64 - 1 - 8192))) c

-- `status` is what VMCLEAR answers.
unfoldable pub clear_vmcs_state : {V : Type 0} → ℕ → ℕ → Cpu V → Cpu V × Bool
clear_vmcs_state region status c =
    let c' = emit (vmclear region) c in
    if truthy status then (emit vmxoff c', false) else (c', true)

module _ {V : Type 0} (hw : VmcsStore V) where
  -- 3221225728 and 3221225729 are `MSR_FS_BASE` and `MSR_GS_BASE`.
  unfoldable pub restore_registers : Cpu V → Cpu V
  restore_registers c =
      let c1 = emit (writemsr 3221225728 (read hw guest_fs_base c)) c in
      let c2 = emit (writemsr 3221225729 (read hw guest_gs_base c1)) c1 in
      let c3 = emit (lgdt (read hw guest_gdtr_base c2) (read hw guest_gdtr_limit c2)) c2 in
      emit (lidt (read hw guest_idtr_base c3) (read hw guest_idtr_limit c3)) c3

  -- `cr4` is what the processor reads from CR4.
  unfoldable pub vmx_vmxoff : {P : Type 0} → ℕ → ℕ → VmState V P → VmState V P
  vmx_vmxoff cr4 status s =
      let c = emit (writecr3 (read hw guest_cr3 s.ept.cpu)) s.ept.cpu in
      let rip = (read hw guest_rip c + read hw vm_exit_instruction_len c) % 2 ^ 64 in
      let c1 = restore_registers c in
      let (c2, cleared) = clear_vmcs_state s.vmcs_region_physical status c1 in
      let c3 = disable_vmx_operation cr4 (emit vmxoff c2) in
      let left = on_cpu (λ old. c3) s in
      record left {
        vmxoff_state = record {
          is_vmxoff_executed = true;
          guest_rip_after = rip;
          guest_rsp_after = read hw guest_rsp c;
        };
        is_launched = false;
      }
