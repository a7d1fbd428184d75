-- ===== src/PoolManager/Slots.antt =====
-- What the loops over one allocation list of PoolManager.cpp do to the addresses in use.
use mathlib.Core.Path.{subst, subst₂}
use nova_hypervisor.Base.{
  ℕ, ◌≡◌, ◌≢◌, refl, inl, inr, Bool, true, false, ◌&&◌, ◌||◌, none, some, List, [], ◌∷◌, ◌++◌, ◌==◌,
  arith, Option-cases, Bool-cases,
}
use nova_hypervisor.PoolManager.{PoolAllocation, claim_slot, release_slot}

-- Some entry has the address.
unfoldable pub owns : ℕ → List PoolAllocation → Bool
owns a [] = false
owns a (slot ∷ rest) = slot.address == a || owns a rest

-- Some entry with the address is in use.
unfoldable pub in_use : ℕ → List PoolAllocation → Bool
in_use a [] = false
in_use a (slot ∷ rest) = slot.address == a && slot.is_used || in_use a rest

-- No entry is in use, or every entry is.
unfoldable pub all_used : List PoolAllocation → Bool
all_used [] = true
all_used (slot ∷ rest) = slot.is_used && all_used rest

-- No address is null, and no two entries have one address.
abbrev pub Distinct : List PoolAllocation → Type 0
Distinct [] = Unit {0}
Distinct (slot ∷ rest) = (slot.address ≢ 0) × (owns slot.address rest ≡ false) × Distinct rest

pub in_use-owns : (a : ℕ) (l : List PoolAllocation) → owns a l ≡ false → in_use a l ≡ false
unfolding owns in_use
in_use-owns a [] h = refl
in_use-owns a (slot ∷ rest) h = ground (arith, in_use-owns a rest)

-- `l'` is `l` with the entry of address `a` put to `u`, and all else as it was.
pub record Switched (a : ℕ) (u : Bool) (l l' : List PoolAllocation) : Type 0 where
  pub owned : owns a l ≡ true
  pub now : in_use a l' ≡ u
  pub elsewhere : (b : ℕ) → b ≢ a → in_use b l' ≡ in_use b l
  pub owners : (b : ℕ) → owns b l' ≡ owns b l
  pub distinct : Distinct l'

Switched-head :
    (u : Bool) (slot : PoolAllocation) (rest : List PoolAllocation)
    → Distinct (slot ∷ rest)
    → Switched slot.address u (slot ∷ rest) (record slot { is_used = u } ∷ rest)
unfolding owns in_use
Switched-head u slot rest d = record {
  owned = ground arith;
  now = ground (arith, in_use-owns slot.address rest);
  elsewhere = λ b ne. ground arith;
  owners = λ b. refl;
  distinct = d;
}

Switched-tail :
    (a : ℕ) (u : Bool) (slot : PoolAllocation) (rest rest' : List PoolAllocation)
    → Distinct (slot ∷ rest)
    → Switched a u rest rest'
    → Switched a u (slot ∷ rest) (slot ∷ rest')
unfolding owns in_use
Switched-tail a u slot rest rest' d sw = record {
  owned = ground (arith, sw.owned);
  now = ground (arith, sw.now, sw.owned);
  elsewhere = λ b ne. ground (arith, sw.elsewhere b);
  owners = λ b. ground (arith, sw.owners b);
  distinct = (d.0, ground (arith, sw.owners slot.address), sw.distinct);
}

pub claim_slot-Switched :
    (l : List PoolAllocation) (a : ℕ) (l' : List PoolAllocation)
    → Distinct l
    → claim_slot l ≡ some (a, l')
    → (in_use a l ≡ false) × Switched a true l l'
unfolding claim_slot owns in_use
claim_slot-Switched [] a l' d e = absurd (ground arith)
claim_slot-Switched (slot ∷ rest) a l' d e = elim (Bool-cases slot.is_used) [
  | inr free ↦
      let here : slot.address ≡ a = ground arith in
      let list : record slot { is_used = true } ∷ rest ≡ l' = ground arith in
      (
        ground (arith, in_use-owns slot.address rest),
        subst₂ (λ x y. Switched x true (slot ∷ rest) y) here list (Switched-head true slot rest d),
      )
  | inl used ↦ elim (Option-cases (claim_slot rest)) [
    | inl stuck ↦ absurd (ground arith)
    | inr ((b, rest'), step) ↦
        let there : b ≡ a = ground arith in
        let list : slot ∷ rest' ≡ l' = ground arith in
        let (unused, sw) = claim_slot-Switched rest b rest' d.2 step in
        (
          ground (arith, sw.owned),
          subst₂ (λ x y. Switched x true (slot ∷ rest) y) there list
              (Switched-tail b true slot rest rest' d sw),
        )
  ]
]

pub claim_slot-none : (l : List PoolAllocation) → claim_slot l ≡ none → all_used l ≡ true
unfolding claim_slot all_used
claim_slot-none [] e = refl
claim_slot-none (slot ∷ rest) e = ground (arith, claim_slot-none rest)

pub release_slot-Switched :
    (a : ℕ) (l l' : List PoolAllocation)
    → Distinct l
    → release_slot a l ≡ some l'
    → Switched a false l l'
unfolding release_slot owns in_use
release_slot-Switched a [] l' d e = absurd (ground arith)
release_slot-Switched a (slot ∷ rest) l' d e = elim (Bool-cases (slot.address == a)) [
  | inl hit ↦
      let here : slot.address ≡ a = ground arith in
      let list : record slot { is_used = false } ∷ rest ≡ l' = ground arith in
      subst₂ (λ x y. Switched x false (slot ∷ rest) y) here list (Switched-head false slot rest d)
  | inr miss ↦ elim (Option-cases (release_slot a rest)) [
    | inl stuck ↦ absurd (ground arith)
    | inr (rest', step) ↦
        let list : slot ∷ rest' ≡ l' = ground arith in
        subst (λ y. Switched a false (slot ∷ rest) y) list
          (Switched-tail a false slot rest rest' d (release_slot-Switched a rest rest' d.2 step))
  ]
]

pub release_slot-none :
    (a : ℕ) (l : List PoolAllocation) → release_slot a l ≡ none → owns a l ≡ false
unfolding release_slot owns
release_slot-none a [] e = refl
release_slot-none a (slot ∷ rest) e = ground (arith, release_slot-none a rest)

pub owns-append : (a : ℕ) (l m : List PoolAllocation) → owns a (l ++ m) ≡ (owns a l || owns a m)
unfolding owns
owns-append a [] m = refl
owns-append a (slot ∷ rest) m = ground (arith, owns-append a rest m)

pub in_use-append :
    (a : ℕ) (l m : List PoolAllocation) → in_use a (l ++ m) ≡ (in_use a l || in_use a m)
unfolding in_use
in_use-append a [] m = refl
in_use-append a (slot ∷ rest) m = ground (arith, in_use-append a rest m)

pub Distinct-append :
    (l : List PoolAllocation) (slot : PoolAllocation)
    → Distinct l
    → slot.address ≢ 0
    → owns slot.address l ≡ false
    → Distinct (l ++ slot ∷ [])
unfolding owns
Distinct-append [] slot d n f = (n, refl, tt)
Distinct-append (x ∷ rest) slot d n f = (
  d.0,
  ground (arith, owns-append x.address rest (slot ∷ [])),
  Distinct-append rest slot d.2 n (ground arith),
)
