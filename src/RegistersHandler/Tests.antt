-- ===== src/RegistersHandler/Tests.antt =====
-- Exits on registers at concrete inputs.
use nova_hypervisor.Base.{
  ℕ, ◌-◌, ◌/◌, ◌^◌, ◌≡◌, refl, ◌++◌, [], ◌∷◌, true, arith, ◌==◌, if◌then◌else◌,
}
use nova_hypervisor.Vmcs.{guest_cr0, guest_cr3, guest_cr4, cr0_read_shadow, cr4_read_shadow}
use nova_hypervisor.Vmcs.Store.{fields}
use nova_hypervisor.Guest.{Cpu, read, writemsr, invvpid, rcx}
use nova_hypervisor.RegistersHandler.{
  is_valid_msr, is_hyper_v_synthetic_msr, handle_msr_read, handle_msr_write, handle_cpuid,
  handle_cr_access,
}
use nova_hypervisor.RegistersHandler.Laws.{handle_msr_write-read}
use nova_hypervisor.RegistersHandler.Control.{
  CpuidAnswer, handle_cpuid_lem, handle_cpuid_upper, mov_to_cr_lem,
}

-- The exit qualification `q`, and 1 in each register but RCX, which names IA32_EFER.
abbrev guest : ℕ → Cpu (ℕ → ℕ)
guest q = record {
  vmcs = λ f. if f == 25600 then q else 7;
  regs = λ i. if i == 1 then 3221225600 else 1;
  effects = [];
}

valid_efer : is_valid_msr 3221225600 ≡ true
unfolding is_valid_msr is_hyper_v_synthetic_msr
valid_efer = refl

handle_msr_write-read_example :
    (handle_msr_write (handle_msr_read (λ n. 3329) (guest 0)).0).0.effects
    ≡ [] ++ writemsr 3221225600 3329 ∷ []
handle_msr_write-read_example = handle_msr_write-read (guest 0) (λ n. 3329) (omega arith) valid_efer

abbrev leaf_1 : ℕ → ℕ → ℕ × ℕ × ℕ × ℕ
leaf_1 leaf subleaf = (1, 2, 3, 4)

handle_cpuid_lem_example : CpuidAnswer 1 1 2 3 4 (handle_cpuid leaf_1 (guest 0)).0
handle_cpuid_lem_example =
    handle_cpuid_lem leaf_1 (guest 0) 1 2 3 4 (omega arith) (omega arith) (omega arith)
      (omega arith) refl

handle_cpuid_upper_example : (handle_cpuid leaf_1 (guest 0)).0.regs rcx / 2 ^ 32 ≡ 2 ^ 32 - 1
handle_cpuid_upper_example = handle_cpuid_upper leaf_1 (guest 0) 1 2 3 4 (omega arith) refl refl

mov_to_cr_lem_example :
    (let c = handle_cr_access fields true 0 (guest 3) in
      (◌≡◌ {A = ℕ} 3 0
        → (c.1 ≡ true) × (read fields guest_cr0 c.0 ≡ 1) × (read fields cr0_read_shadow c.0 ≡ 1))
      × (◌≡◌ {A = ℕ} 3 4
          → (c.1 ≡ true) × (read fields guest_cr4 c.0 ≡ 1) × (read fields cr4_read_shadow c.0 ≡ 1))
      × (◌≡◌ {A = ℕ} 3 3
          → (c.1 ≡ true)
            × (read fields guest_cr3 c.0 ≡ 1)
            × (true ≡ true → c.0.effects ≡ [] ++ invvpid 1 1 0 ∷ [])))
mov_to_cr_lem_example = mov_to_cr_lem fields true 0 (guest 3) refl (omega arith) (omega arith)
