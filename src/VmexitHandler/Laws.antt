-- ===== src/VmexitHandler/Laws.antt =====
-- Which values of XCR0 the guest may set, by VmexitHandler.cpp.
use Prim.Native.Nat.{min}
use nova_hypervisor.Base.{
  ℕ, zero, suc, ◌+◌, ◌-◌, ◌/◌, ◌%◌, ◌^◌, ◌<◌, ◌≤◌, ◌≡◌, refl, ap, Bool, true, false, ◌!=◌, ltb,
  truthy, bit_and, bit_and_test, bit_and_low, bit_and_bit, complement_test, arith, Bool-cases, inl,
  inr,
}
use native.Mathlib.Nat.{one-le-pow}
use native.Mathlib.Decide.{dec_lt}
use nova_hypervisor.Guest.{Cpu, emit, xsetbv, rcx}
use nova_hypervisor.VmexitHandler.{
  emulate_xsetbv, is_bad_mask, supported_mask, requested_mask, requested_size, component_end,
  max_xsave_area_size,
}

bit_set : (i mask : ℕ) → mask / 2 ^ i % 2 ≡ 1 → truthy (bit_and mask (2 ^ i)) ≡ true
bit_set i mask h = ground (arith, bit_and_bit i mask, one-le-pow i 2)

-- The loop keeps what it found, and has seen each requested component.
requested_size_covers :
    (cpuidex : ℕ → ℕ → ℕ × ℕ × ℕ × ℕ) (mask n k : ℕ)
    → k < n
    → mask / 2 ^ (k + 2) % 2 ≡ 1
    → component_end cpuidex (k + 2) ≤ requested_size cpuidex mask n
unfolding requested_size
requested_size_covers cpuidex mask zero k h b = absurd (omega arith)
requested_size_covers cpuidex mask (suc n) k h b = elim (dec_lt k n) [
  | yes below ↦ ground (arith, requested_size_covers cpuidex mask n k below b)
  | no last ↦
      let same : k ≡ n = omega arith in
      ground (
        arith,
        bit_set (k + 2) mask b,
        ap (component_end cpuidex) (ap (λ (t : ℕ). t + 2) same),
        same,
      )
]

-- The masks agree: each requested component is supported.
bad_mask_clear :
    (requested supported i : ℕ)
    → supported < 2 ^ 64
    → i < 64
    → is_bad_mask requested supported ≡ false
    → requested / 2 ^ i % 2 ≡ 1
    → supported / 2 ^ i % 2 ≡ 1
bad_mask_clear requested supported i small h clear bit =
    let none_bad : bit_and requested (2 ^ 64 - 1 - supported) ≡ 0 = ground (arith, clear) in
    let both = bit_and_test i requested (2 ^ 64 - 1 - supported) in
    let zero_bit : 0 / 2 ^ i % 2 ≡ 0 = ground (arith, one-le-pow i 2) in
    ground (
      arith,
      both,
      ap (λ (t : ℕ). t / 2 ^ i % 2) none_bad,
      zero_bit,
      complement_test 64 i supported h small,
    )

bad_mask_x87 : (m s : ℕ) → is_bad_mask m s ≡ false → m % 2 ≡ 1
bad_mask_x87 m s good =
    let low : bit_and m 1 ≡ m % 2 = bit_and_low 1 m in
    let kept : truthy (bit_and m 1) ≡ true = ground (arith, good) in ground (arith, low, kept)

bad_mask_sse : (m s : ℕ) → is_bad_mask m s ≡ false → m / 2 ^ 2 % 2 ≡ 1 → m / 2 % 2 ≡ 1
bad_mask_sse m s good avx =
    let set : truthy (bit_and m 4) ≡ true = bit_set 2 m avx in
    let both : bit_and m 6 ≡ 6 = ground (arith, good, set) in
    let test : bit_and m 6 / 2 % 2 ≡ min (m / 2 % 2) 1 = bit_and_test 1 m 6 in
    ground (arith, both, test)

-- An accepted XSETBV: what the guest asked for is written, and it is a mask that the processor
-- supports and whose state fits into the save area.
pub record Accepted {V : Type 0} (cpuidex : ℕ → ℕ → ℕ × ℕ × ℕ × ℕ) (c : Cpu V) (r : Cpu V × Bool)
    : Type 0 where
  pub written : r.0 ≡ emit (xsetbv 0 (requested_mask c)) c
  pub x87 : requested_mask c % 2 ≡ 1
  pub sse_with_avx : requested_mask c / 2 ^ 2 % 2 ≡ 1 → requested_mask c / 2 % 2 ≡ 1
  pub supported :
      (i : ℕ) → i < 64 → requested_mask c / 2 ^ i % 2 ≡ 1 → supported_mask cpuidex / 2 ^ i % 2 ≡ 1
  pub fits :
      (k : ℕ)
      → k < 62
      → requested_mask c / 2 ^ (k + 2) % 2 ≡ 1
      → component_end cpuidex (k + 2) ≤ max_xsave_area_size

module _ {V : Type 0} (cpuidex : ℕ → ℕ → ℕ × ℕ × ℕ × ℕ) (c : Cpu V) where
  -- An XSETBV that is accepted writes XCR0 as the guest asked; the mask has x87 state, SSE state if it
  -- has AVX state, only components that the processor supports, and none that ends past the save area.
  -- One that is refused changes nothing.
  pub emulate_xsetbv_lem :
      ((emulate_xsetbv cpuidex c).1 ≡ true → Accepted cpuidex c (emulate_xsetbv cpuidex c))
      × ((emulate_xsetbv cpuidex c).1 ≡ false → emulate_xsetbv cpuidex c ≡ (c, false))
  unfolding emulate_xsetbv
  emulate_xsetbv_lem = elim (Bool-cases (c.regs rcx != 0)) [
    | inl other ↦ rw (other, emulate_xsetbv) ((λ e. absurd (cc)), λ e. refl)
    | inr zero_reg ↦ elim (Bool-cases (is_bad_mask (requested_mask c) (supported_mask cpuidex))) [
      | inl bad ↦ rw (zero_reg, bad, emulate_xsetbv) ((λ e. absurd (cc)), λ e. refl)
      | inr good ↦
          elim (Bool-cases
            (ltb max_xsave_area_size (requested_size cpuidex (requested_mask c) 62))) [
              | inl large ↦
                  rw (zero_reg, good, large, emulate_xsetbv) ((λ e. absurd (cc)), λ e. refl)
              | inr fitting ↦
                  rw (zero_reg, good, fitting, emulate_xsetbv)
                    ((λ e. accept zero_reg good fitting), λ e. absurd (cc))
            ]
    ]
  ]
    where
      accept :
          (c.regs rcx != 0) ≡ false
          → is_bad_mask (requested_mask c) (supported_mask cpuidex) ≡ false
          → ltb max_xsave_area_size (requested_size cpuidex (requested_mask c) 62) ≡ false
          → Accepted cpuidex c (emit (xsetbv (c.regs rcx % 2 ^ 32) (requested_mask c)) c, true)
      accept zero_reg good fitting =
          let index : c.regs rcx % 2 ^ 32 ≡ 0 = ground (arith, zero_reg) in
          record {
            written = ap (λ (n : ℕ). emit (xsetbv n (requested_mask c)) c) index;
            x87 = bad_mask_x87 (requested_mask c) (supported_mask cpuidex) good;
            sse_with_avx = bad_mask_sse (requested_mask c) (supported_mask cpuidex) good;
            supported = λ i h b.
                bad_mask_clear (requested_mask c) (supported_mask cpuidex) i (omega arith) h good b;
            fits = λ k h b.
                ground (arith, fitting, requested_size_covers cpuidex (requested_mask c) 62 k h b);
          }
