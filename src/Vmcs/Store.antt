-- ===== src/Vmcs/Store.antt =====
-- A store of fields that keeps what the instructions promise: for runs at concrete inputs.
use native.Mathlib.Nat.{one-le-pow}
use nova_hypervisor.Base.{
  ℕ, ◌+◌, ◌-◌, ◌*◌, ◌/◌, ◌%◌, ◌^◌, ◌==◌, if◌then◌else◌, arith, Bool-cases, ne→==, ==_refl, inl, inr,
  sym, ◌≡◌, ◌≢◌, ◌<◌, ◌∙◌, refl, ap, true, false,
}
use nova_hypervisor.Vmcs.{VmcsStore, width, is_writable}

abbrev store : ℕ → ℕ → (ℕ → ℕ) → ℕ → ℕ
store f v s g = if g == f then v else s g

abbrev get : ℕ → (ℕ → ℕ) → ℕ
get f s = s f % 2 ^ width f

-- The word of a field with its upper half replaced.
abbrev with_high : ℕ → ℕ → ℕ
with_high v word = word % 2 ^ 32 + v % 2 ^ 32 * 2 ^ 32

abbrev set_half : ℕ → ℕ → (ℕ → ℕ) → ℕ → ℕ
set_half f v s = if is_writable f then store f (with_high v (get f s)) s else s

-- An odd encoding is that of a high half.
abbrev set : ℕ → ℕ → (ℕ → ℕ) → ℕ → ℕ
set f v s = if f % 2 == 1 then set_half (f - 1) v s else if is_writable f then store f v s else s

even-test : (f : ℕ) → f % 2 ≡ 0 → (f % 2 == 1) ≡ false
even-test f e = ground (arith, e)

odd-test : (f : ℕ) → f % 2 ≡ 0 → ((f + 1) % 2 == 1) ≡ true
odd-test f e = ground (arith, e)

writable-even : (f : ℕ) → is_writable f ≡ true → f % 2 ≡ 0
writable-even f h = ground (arith, h)

pub get_same : (f v : ℕ) (s : ℕ → ℕ) → is_writable f ≡ true → get f (set f v s) ≡ v % 2 ^ width f
get_same f v s h = rw (even-test f (writable-even f h), h) (rw (==_refl f) refl)

store_other : (f g v : ℕ) (s : ℕ → ℕ) → f ≢ g → get g (store f v s) ≡ get g s
store_other f g v s ne = rw (ne→== g f (λ e. ne (sym e))) refl

pub get_other : (f g v : ℕ) (s : ℕ → ℕ) → f ≢ g → f % 2 ≡ 0 → get g (set f v s) ≡ get g s
get_other f g v s ne even = elim (Bool-cases (is_writable f)) [
  | inl w ↦ rw (even-test f even, w) (store_other f g v s ne)
  | inr r ↦ rw (even-test f even, r) refl
]

half : (f v : ℕ) (s : ℕ → ℕ) → f % 2 ≡ 0 → (g : ℕ) → set (f + 1) v s g ≡ set_half f v s g
half f v s even g = let back : f + 1 - 1 ≡ f = omega arith in rw (odd-test f even, back) refl

pub get_high :
    (f v : ℕ) (s : ℕ → ℕ)
    → f % 2 ≡ 0
    → is_writable f ≡ true
    → f / 8192 % 4 ≡ 1
    → get f (set (f + 1) v s) ≡ with_high v (get f s)
get_high f v s even w long =
    let wide : width f ≡ 64 = rw long refl in
    ap (λ (x : ℕ). x % 2 ^ width f) (half f v s even f) ∙ rw (w, ==_refl f, wide) (omega arith)

pub get_high_other : (f g v : ℕ) (s : ℕ → ℕ) → f ≢ g → f % 2 ≡ 0 → get g (set (f + 1) v s) ≡ get g s
get_high_other f g v s ne even =
    ap (λ (x : ℕ). x % 2 ^ width g) (half f v s even g) ∙ elim (Bool-cases (is_writable f)) [
      | inl w ↦ rw w (store_other f g (with_high v (get f s)) s ne)
      | inr r ↦ rw r refl
    ]

pub get_lt : (f : ℕ) (s : ℕ → ℕ) → get f s < 2 ^ width f
get_lt f s = ground (arith, one-le-pow (width f) 2)

abbrev pub fields : VmcsStore (ℕ → ℕ)
fields = record {
  vmread = get;
  vmwrite = set;
  read_same = get_same;
  read_other = λ f g v s ne hf hg. get_other f g v s ne hf;
  write_high = get_high;
  high_other = λ f g v s ne hf hg. get_high_other f g v s ne hf;
  bounded = get_lt;
}
