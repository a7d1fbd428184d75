-- ===== src/Vmx/Off.antt =====
-- How a processor leaves VMX: `VmxVmxoff` of NovaHypervisor/Vmx.cpp.
use mathlib.Core.List.{append_assoc}
use nova_hypervisor.Base.{
  ℕ, ◌+◌, ◌-◌, ◌*◌, ◌/◌, ◌%◌, ◌^◌, ◌<◌, ◌≡◌, refl, true, false, truthy, if◌then◌else◌, bit_and,
  bit_and_low_part, bit_and_shift, bit_and_low, List, [], ◌∷◌, ◌++◌, arith, Bool-cases, inl, inr,
}
use nova_hypervisor.Vmcs.{
  VmcsStore, guest_cr3, guest_rip, guest_rsp, vm_exit_instruction_len, guest_fs_base, guest_gs_base,
  guest_gdtr_base, guest_gdtr_limit, guest_idtr_base, guest_idtr_limit,
}
use nova_hypervisor.Guest.{Effect, read, writemsr, writecr3, writecr4, lgdt, lidt, vmclear, vmxoff}
use nova_hypervisor.Vmx.{
  VmState, restore_registers, clear_vmcs_state, disable_vmx_operation, vmx_vmxoff,
}

-- CR4 without the bit 13, which allows VMXON, and with it.
pub cr4_without :
    (cr4 : ℕ)
    → cr4 < 2 ^ 64
    → bit_and cr4 (2 ^ 64 - 1 - 8192) ≡ cr4 / 2 ^ 14 * 2 ^ 14 + cr4 % 2 ^ 13
cr4_without cr4 h = omega (
  arith,
  bit_and_low_part 13 cr4 2251799813685246,
  bit_and_shift 1 (cr4 / 2 ^ 13) 1125899906842623,
  bit_and_low 50 (cr4 / 2 ^ 13 / 2),
)

module _ {V P : Type 0} (hw : VmcsStore V) (cr4 status : ℕ) (s : VmState V P) where
  -- The instructions that `VmxVmxoff` runs.
  abbrev pub leaving : List Effect
  leaving =
      writecr3 (read hw guest_cr3 s.ept.cpu)
        ∷ writemsr 3221225728 (read hw guest_fs_base s.ept.cpu)
        ∷ writemsr 3221225729 (read hw guest_gs_base s.ept.cpu)
        ∷ lgdt (read hw guest_gdtr_base s.ept.cpu) (read hw guest_gdtr_limit s.ept.cpu)
        ∷ lidt (read hw guest_idtr_base s.ept.cpu) (read hw guest_idtr_limit s.ept.cpu)
        ∷ vmclear s.vmcs_region_physical
        ∷ (if truthy status then vmxoff ∷ vmxoff ∷ [] else vmxoff ∷ [])
      ++ writecr4 (cr4 / 2 ^ 14 * 2 ^ 14 + cr4 % 2 ^ 13) ∷ []

  -- `VmxVmxoff` remembers the address behind the guest's instruction and its stack pointer, marks the
  -- processor as not launched, and changes neither the VMCS nor the guest's registers. It runs with the
  -- guest's CR3, gives FS, GS, GDTR and IDTR their guest values back, clears the VMCS, leaves VMX, and
  -- takes the bit 13 and no other out of CR4. If VMCLEAR fails, VMXOFF runs twice.
  pub vmx_vmxoff_lem :
      cr4 < 2 ^ 64
      → let s' = vmx_vmxoff hw cr4 status s in
        (s'.vmxoff_state ≡ record {
          is_vmxoff_executed = true;
          guest_rip_after =
              (read hw guest_rip s.ept.cpu + read hw vm_exit_instruction_len s.ept.cpu) % 2 ^ 64;
          guest_rsp_after = read hw guest_rsp s.ept.cpu;
        })
        × (s'.is_launched ≡ false)
        × (s'.ept.cpu.vmcs ≡ s.ept.cpu.vmcs)
        × (s'.ept.cpu.regs ≡ s.ept.cpu.regs)
        × (s'.ept.cpu.effects ≡ s.ept.cpu.effects ++ leaving)
  unfolding vmx_vmxoff restore_registers clear_vmcs_state disable_vmx_operation
  vmx_vmxoff_lem bound = elim (Bool-cases (truthy status)) [
    | inl failed ↦ rw (failed, cr4_without cr4 bound) (refl, refl, refl, refl, simp append_assoc)
    | inr cleared ↦ rw (cleared, cr4_without cr4 bound) (refl, refl, refl, refl, simp append_assoc)
  ]
