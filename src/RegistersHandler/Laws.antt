-- ===== src/RegistersHandler/Laws.antt =====
-- The registers that the guest sees after an exit, by RegistersHandler.cpp.
use nova_hypervisor.Base.{
  ℕ, ◌+◌, ◌*◌, ◌%◌, ◌^◌, ◌<◌, ◌≡◌, ◌≢◌, refl, ◌∙◌, ap, inl, inr, Bool, true, false, ◌++◌, [], ◌∷◌,
  Bool-cases, arith,
}
use nova_hypervisor.Guest.{Cpu, emit, set_regs, writemsr, rax, rcx, rdx}
use nova_hypervisor.VmxHelper.{low, high}
use nova_hypervisor.RegistersHandler.{
  is_hyper_v_synthetic_msr, is_valid_msr, handle_msr_read, handle_msr_write,
}

-- A valid MSR number fits in the 32 bits of ECX.
pub is_valid_msr_bound : (msr : ℕ) → is_valid_msr msr ≡ true → msr < 2 ^ 32
unfolding is_valid_msr is_hyper_v_synthetic_msr
is_valid_msr_bound msr h = ground arith

synthetic-valid : (msr : ℕ) → is_hyper_v_synthetic_msr msr ≡ true → is_valid_msr msr ≡ true
unfolding is_valid_msr
synthetic-valid msr h = ground arith

-- The answer is true, EDX:EAX hold the word, and all else is as before.
pub record Answered {V : Type 0} (before : Cpu V) (content : ℕ) (r : Cpu V × Bool) : Type 0 where
  pub accepted : r.1 ≡ true
  pub word : r.0.regs rax + r.0.regs rdx * 2 ^ 32 ≡ content
  pub low_half : r.0.regs rax < 2 ^ 32
  pub high_half : r.0.regs rdx < 2 ^ 32
  pub others : (i : ℕ) → i ≢ rax → i ≢ rdx → r.0.regs i ≡ before.regs i
  pub vmcs_kept : r.0.vmcs ≡ before.vmcs
  pub quiet : r.0.effects ≡ before.effects

answered :
    {V : Type 0} {cpu : Cpu V} {w : ℕ}
    → w < 2 ^ 64
    → Answered cpu w (set_regs rdx (high w) (set_regs rax (low w) cpu), true)
answered small = record {
  accepted = refl;
  word = omega arith;
  low_half = omega arith;
  high_half = omega arith;
  others = λ i na nd. ground arith;
  vmcs_kept = refl;
  quiet = refl;
}

module _ {V : Type 0} (readmsr : ℕ → ℕ) (cpu : Cpu V) where
  -- RDMSR of a valid MSR reads the register that the guest named, and leaves its word in EDX:EAX with
  -- the upper halves of both registers 0; of any other MSR it is refused and changes nothing.
  pub handle_msr_read_lem :
      (readmsr (cpu.regs rcx) < 2 ^ 64)
      → (is_valid_msr (cpu.regs rcx) ≡ true
          → Answered cpu (readmsr (cpu.regs rcx)) (handle_msr_read readmsr cpu))
        × (is_valid_msr (cpu.regs rcx) ≡ false → handle_msr_read readmsr cpu ≡ (cpu, false))
  unfolding handle_msr_read
  handle_msr_read_lem small = (valid, invalid)
    where
      exact : is_valid_msr (cpu.regs rcx) ≡ true → cpu.regs rcx % 2 ^ 32 ≡ cpu.regs rcx
      exact h = omega (arith, is_valid_msr_bound (cpu.regs rcx) h)

      valid :
          is_valid_msr (cpu.regs rcx) ≡ true
          → Answered cpu (readmsr (cpu.regs rcx)) (handle_msr_read readmsr cpu)
      valid h = elim (Bool-cases (is_hyper_v_synthetic_msr (cpu.regs rcx))) [
        | inl yes' ↦ rw (exact h, yes', handle_msr_read) (answered small)
        | inr no' ↦ rw (exact h, no', h, handle_msr_read) (answered small)
      ]

      invalid : is_valid_msr (cpu.regs rcx) ≡ false → handle_msr_read readmsr cpu ≡ (cpu, false)
      invalid h = elim (Bool-cases (is_hyper_v_synthetic_msr (cpu.regs rcx))) [
        | inl yes' ↦ absurd (ground (arith, synthetic-valid (cpu.regs rcx) yes'))
        | inr no' ↦ rw (no', h, handle_msr_read)
      ]

module _ {V : Type 0} (cpu : Cpu V) where
  -- WRMSR of a valid MSR writes EDX:EAX to the register that the guest named; of any other MSR it is
  -- refused and changes nothing.
  pub handle_msr_write_lem :
      (is_valid_msr (cpu.regs rcx) ≡ true
        → handle_msr_write cpu ≡ (
          emit
              (writemsr (cpu.regs rcx) (cpu.regs rax % 2 ^ 32 + cpu.regs rdx % 2 ^ 32 * 2 ^ 32))
              cpu,
          true,
        ))
      × (is_valid_msr (cpu.regs rcx) ≡ false → handle_msr_write cpu ≡ (cpu, false))
  unfolding handle_msr_write
  handle_msr_write_lem = (valid, invalid)
    where
      exact : is_valid_msr (cpu.regs rcx) ≡ true → cpu.regs rcx % 2 ^ 32 ≡ cpu.regs rcx
      exact h = omega (arith, is_valid_msr_bound (cpu.regs rcx) h)

      valid :
          is_valid_msr (cpu.regs rcx) ≡ true
          → handle_msr_write cpu ≡ (
            emit
                (writemsr (cpu.regs rcx) (cpu.regs rax % 2 ^ 32 + cpu.regs rdx % 2 ^ 32 * 2 ^ 32))
                cpu,
            true,
          )
      valid h = elim (Bool-cases (is_hyper_v_synthetic_msr (cpu.regs rcx))) [
        | inl yes' ↦ rw (exact h, yes', handle_msr_write)
        | inr no' ↦ rw (exact h, no', h, handle_msr_write)
      ]

      invalid : is_valid_msr (cpu.regs rcx) ≡ false → handle_msr_write cpu ≡ (cpu, false)
      invalid h = elim (Bool-cases (is_hyper_v_synthetic_msr (cpu.regs rcx))) [
        | inl yes' ↦ absurd (ground (arith, synthetic-valid (cpu.regs rcx) yes'))
        | inr no' ↦ rw (no', h, handle_msr_write)
      ]

module _ {V : Type 0} (cpu : Cpu V) where
  -- What RDMSR has put into EDX:EAX, WRMSR of the same MSR writes back.
  pub handle_msr_write-read :
      (readmsr : ℕ → ℕ)
      → readmsr (cpu.regs rcx) < 2 ^ 64
      → is_valid_msr (cpu.regs rcx) ≡ true
      → (handle_msr_write (handle_msr_read readmsr cpu).0).0.effects
        ≡ cpu.effects ++ writemsr (cpu.regs rcx) (readmsr (cpu.regs rcx)) ∷ []
  handle_msr_write-read readmsr small valid =
      let after = (handle_msr_read readmsr cpu).0 in
      let a : Answered cpu (readmsr (cpu.regs rcx)) (handle_msr_read readmsr cpu) =
        (handle_msr_read_lem readmsr cpu small).0 valid in
      let same : after.regs rcx ≡ cpu.regs rcx = a.others rcx (omega arith) (omega arith) in
      let word : after.regs rax % 2 ^ 32 + after.regs rdx % 2 ^ 32 * 2 ^ 32
          ≡ readmsr (cpu.regs rcx) =
        omega (arith, a.word, a.low_half, a.high_half) in
      ap (λ (r : Cpu V × Bool). r.0.effects)
        ((handle_msr_write_lem after).0 (ap is_valid_msr same ∙ valid))
      ∙ rw (same, word, a.quiet)
