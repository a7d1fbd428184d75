-- ===== src/Ept/Table/Fill.antt =====
-- What the loops of the page tables leave in memory: consecutive words filled, the rest as it was.
use nova_hypervisor.Base.{
  ℕ, zero, suc, ◌+◌, ◌*◌, ◌<◌, ◌≤◌, false, ◌==◌, ◌≡◌, ◌⊎◌, inl, inr, refl, arith, ==_refl,
  Bool-cases,
}
use nova_hypervisor.Ept.Hooks.{put}
use nova_hypervisor.Ept.Table.{count_up, for_each, stosq, SetupOutcome, succeeds, raises}

-- The address stands before the `n` words from `base` on, or behind them.
abbrev pub Outside : ℕ → ℕ → ℕ → Type 0
Outside base n b = (b < base) ⊎ (base + n * 8 ≤ b)

-- `memory` holds `value i` at the word `i` of the `n` words from `base` on, and `before` elsewhere.
abbrev pub Filled : ℕ → ℕ → (ℕ → ℕ) → (ℕ → ℕ) → (ℕ → ℕ) → Type 0
Filled base n value before memory =
    ((i : ℕ) → i < n → memory (base + i * 8) ≡ value i)
    × ((b : ℕ) → Outside base n b → memory b ≡ before b)

-- Two memories with the same words.
abbrev pub Same : (ℕ → ℕ) → (ℕ → ℕ) → Type 0
Same m m' = (b : ℕ) → m b ≡ m' b

pub put_other : (a v b : ℕ) (memory : ℕ → ℕ) → (b == a) ≡ false → put a v memory b ≡ memory b
put_other a v b memory h = rw h

pub put_twice : (a v w : ℕ) (memory : ℕ → ℕ) → Same (put a v (put a w memory)) (put a v memory)
put_twice a v w memory b = ground arith

-- One more word.
pub Filled-put :
    (base n : ℕ) (value before memory after : ℕ → ℕ)
    → Filled base n value before memory
    → Same after (put (base + n * 8) (value n) memory)
    → Filled base (suc n) value before after
Filled-put base n value before memory after (inside, outside) same = (
  λ i h. elim (Bool-cases (i == n)) [
    | inl e ↦
        let at : i ≡ n = ground (arith, e) in rw (at, same (base + n * 8), ==_refl (base + n * 8))
    | inr e ↦
        let less : i < n = ground (arith, e, h) in
        let apart : (base + i * 8 == base + n * 8) ≡ false = ground (arith, less) in
        rw (same (base + i * 8), apart, inside i less)
  ],
  λ b h.
      let apart : (b == base + n * 8) ≡ false = ground (arith, h) in
      let still : Outside base n b = ground (arith, h) in rw (same b, apart, outside b still),
)

pub Filled-none : (base : ℕ) (value before : ℕ → ℕ) → Filled base 0 value before before
Filled-none base value before = (λ i h. absurd (omega arith), λ b h. refl)

-- A loop each of whose rounds fills the next word, as far as the rounds before leave it the memory to.
pub count_up-Filled :
    (base n : ℕ) (value before : ℕ → ℕ) (body : ℕ → (ℕ → ℕ) → ℕ → ℕ)
    → ((i : ℕ) (m : ℕ → ℕ)
        → i < n
        → Filled base i value before m
        → Same (body i m) (put (base + i * 8) (value i) m))
    → Filled base n value before (count_up n body before)
unfolding count_up
count_up-Filled base zero value before body step = Filled-none base value before
count_up-Filled base (suc n) value before body step =
    let rest = count_up-Filled base n value before body (λ i m h. step i m (omega arith)) in
    Filled-put base n value before (count_up n body before) (body n (count_up n body before)) rest
      (step n (count_up n body before) (omega arith) rest)

pub stosq-Filled :
    (base v n : ℕ) (before : ℕ → ℕ) → Filled base n (λ i. v) before (stosq base v n before)
unfolding stosq
stosq-Filled base v n before =
    count_up-Filled base n (λ i. v) before (λ i. put (base + i * 8) v) (λ i m h f b. refl)

module _ {ℓ κ} {S : Type ℓ} (body : ℕ → S → S × SetupOutcome) (I : ℕ → S → Type κ) where
  -- A property of the state that each round passes on, with none that ends the loop.
  pub for_each_rule :
      (n : ℕ) (s : S)
      → I 0 s
      → ((i : ℕ) (t : S) → i < n → I i t → ((body i t).1 ≡ succeeds) × I (suc i) ((body i t).0))
      → ((for_each n body s).1 ≡ succeeds) × I n ((for_each n body s).0)
  unfolding for_each
  for_each_rule zero s start step = (refl, start)
  for_each_rule (suc n) s start step =
      let (ok, reached) = for_each_rule n s start (λ i t h. step i t (omega arith)) in
      let next = step n (for_each n body s).0 (omega arith) reached in rw (for_each, ok) next

  -- The round `n` raises, and the loop ends there.
  pub for_each_raises :
      (last_state : S → Type κ) (n m : ℕ) (s : S)
      → I 0 s
      → ((i : ℕ) (t : S) → i < n → I i t → ((body i t).1 ≡ succeeds) × I (suc i) ((body i t).0))
      → ((t : S) → I n t → ((body n t).1 ≡ raises) × last_state ((body n t).0))
      → n < m
      → ((for_each m body s).1 ≡ raises) × last_state ((for_each m body s).0)
  unfolding for_each
  for_each_raises last_state n zero s start step last h = absurd (omega (arith, h))
  for_each_raises last_state n (suc m) s start step last h = elim (Bool-cases (n == m)) [
    | inl e ↦
        let here : m ≡ n = ground (arith, e) in
        let (ok, reached) = for_each_rule n s start step in
        rw (here, for_each, ok) (last (for_each n body s).0 reached)
    | inr e ↦
        let before = for_each_raises last_state n m s start step last (ground (arith, e, h)) in
        rw (for_each, before.0) (refl, before.1)
  ]
