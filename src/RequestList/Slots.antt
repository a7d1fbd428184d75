-- ===== src/RequestList/Slots.antt =====
-- What the loops of RequestList.hpp do to the requests in use.
use mathlib.Core.Path.{subst}
use mathlib.Core.List.{Perm}
use mathlib.Core.List.Perm
use nova_hypervisor.Base.{
  suc, ◌≤◌, ◌<◌, ◌≡◌, refl, true, false, none, some, List, [], ◌∷◌, length, arith, Bool-cases, inl,
  inr, sym, ap,
}
use nova_hypervisor.RequestList.{RequestItem, insert_slot, pop_slot}

module _ {ℓ} {A : Type ℓ} where
  -- The requests in use, in the order of their slots.
  unfoldable pub pending : List (RequestItem A) → List A
  pending [] = []
  pending (slot ∷ rest) = elim slot.is_used [
    | true ↦ slot.request ∷ pending rest
    | false ↦ pending rest
  ]

  pub length-pending_le : (slots : List (RequestItem A)) → length (pending slots) ≤ length slots
  unfolding pending
  length-pending_le [] = omega arith
  length-pending_le (slot ∷ rest) = ground (arith, length-pending_le rest)

  -- What a successful insertion leaves: the request added, the table as long.
  pub record Inserted (item : A) (slots slots' : List (RequestItem A)) : Type ℓ where
    pub same_length : length slots' ≡ length slots
    pub counted : length (pending slots') ≡ suc (length (pending slots))
    pub added : Perm (pending slots') (item ∷ pending slots)

  abbrev Insertion : A → List (RequestItem A) → Type ℓ
  Insertion item slots =
      (slots' : List (RequestItem A)) × (insert_slot item slots ≡ some slots')
      × Inserted item slots slots'

  insert_slot_free :
      (item old : A) (rest : List (RequestItem A))
      → Insertion item (record { request = old; is_used = false } ∷ rest)
  unfolding insert_slot pending
  insert_slot_free item old rest = (
    record { request = item; is_used = true } ∷ rest,
    refl,
    record { same_length = refl; counted = refl; added = Perm.refl _ },
  )

  insert_slot_used :
      (item old : A) (rest : List (RequestItem A))
      → Insertion item rest
      → Insertion item (record { request = old; is_used = true } ∷ rest)
  unfolding insert_slot pending
  insert_slot_used item old rest (rest', e, ins) = (
    record { request = old; is_used = true } ∷ rest',
    rw e,
    record {
      same_length = ap suc ins.same_length;
      counted = ap suc ins.counted;
      added = Perm.trans (Perm.cons old ins.added) (Perm.swap item old _);
    },
  )

  pub insert_slot-Inserted :
      (item : A) (slots : List (RequestItem A))
      → length (pending slots) < length slots
      → Insertion item slots
  unfolding pending
  insert_slot-Inserted item [] h = absurd (omega arith)
  insert_slot-Inserted item (slot ∷ rest) h = elim (Bool-cases slot.is_used) [
    | inl used ↦
        let step =
          insert_slot_used item slot.request rest (insert_slot-Inserted item rest (ground arith)) in
        subst (λ u. Insertion item (record { request = slot.request; is_used = u } ∷ rest))
          (sym used) step
    | inr free ↦
        subst (λ u. Insertion item (record { request = slot.request; is_used = u } ∷ rest))
          (sym free) (insert_slot_free item slot.request rest)
  ]

  pub insert_slot_full :
      (item : A) (slots : List (RequestItem A))
      → length (pending slots) ≡ length slots
      → insert_slot item slots ≡ none
  unfolding insert_slot pending
  insert_slot_full item [] h = refl
  insert_slot_full item (slot ∷ rest) h =
      ground (arith, insert_slot_full item rest, length-pending_le rest)

  -- What a successful `Pop` leaves: the first request in use is given up, the rest keep their order.
  pub record Popped (item : A) (slots slots' : List (RequestItem A)) : Type ℓ where
    pub same_length : length slots' ≡ length slots
    pub split : pending slots ≡ item ∷ pending slots'

  abbrev Removal : List (RequestItem A) → Type ℓ
  Removal slots =
      (item : A) × (slots' : List (RequestItem A)) × (pop_slot slots ≡ some (item, slots'))
      × Popped item slots slots'

  pop_slot_used :
      (old : A) (rest : List (RequestItem A))
      → Removal (record { request = old; is_used = true } ∷ rest)
  unfolding pop_slot pending
  pop_slot_used old rest = (
    old,
    record { request = old; is_used = false } ∷ rest,
    refl,
    record { same_length = refl; split = refl },
  )

  pop_slot_free :
      (old : A) (rest : List (RequestItem A))
      → Removal rest
      → Removal (record { request = old; is_used = false } ∷ rest)
  unfolding pop_slot pending
  pop_slot_free old rest (item, rest', e, pop) = (
    item,
    record { request = old; is_used = false } ∷ rest',
    rw e,
    record { same_length = ap suc pop.same_length; split = pop.split },
  )

  pub pop_slot-Popped : (slots : List (RequestItem A)) → 0 < length (pending slots) → Removal slots
  unfolding pending
  pop_slot-Popped [] h = absurd (omega arith)
  pop_slot-Popped (slot ∷ rest) h = elim (Bool-cases slot.is_used) [
    | inl used ↦
        subst (λ u. Removal (record { request = slot.request; is_used = u } ∷ rest)) (sym used)
          (pop_slot_used slot.request rest)
    | inr free ↦
        subst (λ u. Removal (record { request = slot.request; is_used = u } ∷ rest)) (sym free)
          (pop_slot_free slot.request rest (pop_slot-Popped rest (ground arith)))
  ]
