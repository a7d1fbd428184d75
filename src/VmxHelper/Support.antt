-- ===== src/VmxHelper/Support.antt =====
-- When IsVmxSupported of NovaHypervisor/VmxHelper.cpp says yes.
use nova_hypervisor.Base.{
  ℕ, ◌≡◌, ◌≢◌, ◌⊎◌, ◌∙◌, refl, inl, inr, true, ◌==◌, truthy, bit_and, [], ◌∷◌, ◌++◌, arith,
  Bool-cases,
}
use nova_hypervisor.Guest.{Cpu, writemsr}
use nova_hypervisor.Layout.{member, set_member, feature_control}
use nova_hypervisor.Layout.Laws.{set_member_lem}
use nova_hypervisor.VmxHelper.Capabilities.{Cpuid, is_vmx_supported}

-- The control with VMXON enabled and locked.
enabled_lem :
    (control : ℕ)
    → let w = set_member feature_control 2 1 (set_member feature_control 0 1 control) in
      (member feature_control 0 w ≡ 1)
      × (member feature_control 2 w ≡ 1)
      × ((j : ℕ) → 0 ≢ j → 2 ≢ j → member feature_control j w ≡ member feature_control j control)
enabled_lem control =
    let locked = set_member feature_control 0 1 control in
    let (first, others) = set_member_lem feature_control 0 1 1 control refl in
    let (third, rest) = set_member_lem feature_control 2 1 1 locked refl in
    (
      rest 0 (λ e. omega (arith, e)) ∙ first,
      third,
      λ j no_lock no_vmxon. rest j no_vmxon ∙ others j no_lock,
    )

-- If `IsVmxSupported` answers true, the processor has VMX, and IA32_FEATURE_CONTROL holds a word `w` from
-- then on in which VMXON is enabled and the lock is set: the one it had, or one that is written and has
-- all other members as before.
pub is_vmx_supported_lem :
    {V : Type 0} (cpuid : Cpuid) (readmsr : ℕ → ℕ) (cpu : Cpu V)
    → (is_vmx_supported cpuid readmsr cpu).1 ≡ true
    → (truthy (bit_and (cpuid 1 0).2 32) ≡ true)
      × ((w : ℕ) × (((w ≡ readmsr 0x3A)
              × ((is_vmx_supported cpuid readmsr cpu).0.effects ≡ cpu.effects))
            ⊎ ((is_vmx_supported cpuid readmsr cpu).0.effects
                ≡ cpu.effects ++ writemsr 0x3A w ∷ []))
          × (member feature_control 0 w ≡ 1)
          × (member feature_control 2 w ≡ 1)
          × ((j : ℕ)
              → 0 ≢ j
              → 2 ≢ j
              → member feature_control j w ≡ member feature_control j (readmsr 0x3A)))
unfolding is_vmx_supported
is_vmx_supported_lem cpuid readmsr cpu answer =
    let control = readmsr 0x3A in
    let c = (cpuid 1 0).2 in
    elim (Bool-cases (bit_and c 32 == 0)) [
      | inl absent ↦ absurd (ground (arith, absent, answer))
      | inr present ↦ elim (Bool-cases (member feature_control 0 control == 0)) [
        | inl unlocked ↦
            let (lock, vmxon, rest) = enabled_lem control in
            rw (present, unlocked) (ground (arith, present), (_, inr refl, lock, vmxon, rest))
        | inr locked ↦
            let vmxon : truthy (member feature_control 2 control) ≡ true =
              ground (arith, present, locked, answer) in
            rw (present, locked)
              (
                ground (arith, present),
                (
                  control,
                  inl (refl, refl),
                  ground (arith, locked),
                  ground (arith, vmxon),
                  λ j a b. refl,
                ),
              )
      ]
    ]
