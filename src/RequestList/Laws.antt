-- ===== src/RequestList/Laws.antt =====
-- RequestList.hpp against a bag of at most 100 requests.
use mathlib.Core.List.{Perm}
use native.Mathlib.Decide.{dec_lt}
use nova_hypervisor.Base.{
  ℕ, ◌+◌, ◌<◌, ◌≤◌, ◌≡◌, refl, Bool, true, false, Option, none, some, List, [], ◌∷◌, length, arith,
  replicate, zero, suc, ap, ◌-◌,
}
use nova_hypervisor.RequestList.{
  RequestItem, RequestList, max_allocation_requests, create, insert_slot, insert, pop_slot, pop,
}
use nova_hypervisor.RequestList.Slots.{
  pending, insert_slot-Inserted, pop_slot-Popped, length-pending_le,
}

module _ {ℓ} {A : Type ℓ} where
  -- The table has its 100 slots, and the count is the number of slots in use.
  pub record IsValid (list : RequestList A) : Type ℓ where
    pub slots : length list.requests ≡ max_allocation_requests
    pub counted : list.items_count ≡ length (pending list.requests)

  -- The bag that the list stands for.
  abbrev pub bag : RequestList A → List A
  bag list = pending list.requests

  pub pending_unused :
      (n : ℕ) (zeroed : A)
      → pending (replicate n (record { request = zeroed; is_used = false })) ≡ []
  unfolding pending
  pending_unused zero zeroed = refl
  pending_unused (suc n) zeroed = pending_unused n zeroed

  pub create-IsValid : (zeroed : A) → IsValid (create zeroed)
  unfolding create
  create-IsValid zeroed = record {
    slots = refl;
    counted = rw (pending_unused max_allocation_requests zeroed);
  }

  insert_room :
      (item : A) (list : RequestList A) (slots : List (RequestItem A))
      → list.items_count < max_allocation_requests
      → insert_slot item list.requests ≡ some slots
      → insert item list ≡ (record { requests = slots; items_count = list.items_count + 1 }, true)
  unfolding insert
  insert_room item list slots h e = ground arith

  pub insert_full :
      (item : A) (list : RequestList A)
      → list.items_count ≡ max_allocation_requests
      → insert item list ≡ (list, false)
  unfolding insert
  insert_full item list e = ground arith

  pop_present :
      (item : A) (list : RequestList A) (slots : List (RequestItem A))
      → 0 < list.items_count
      → list.items_count ≤ max_allocation_requests
      → pop_slot list.requests ≡ some (item, slots)
      → pop list ≡ (record { requests = slots; items_count = list.items_count - 1 }, some item)
  unfolding pop
  pop_present item list slots h k e = ground arith

  pub pop_empty : (list : RequestList A) → list.items_count ≡ 0 → pop list ≡ (list, none)
  unfolding pop
  pop_empty list e = ground arith

  -- The two outcomes of `Insert` on a valid list.
  pub data InsertCase (item : A) (list : RequestList A) : RequestList A × Bool → Type ℓ where
    inserted :
        (list' : RequestList A)
        → length (bag list) < max_allocation_requests
        → IsValid list'
        → length (bag list') ≡ suc (length (bag list))
        → Perm (bag list') (item ∷ bag list)
        → InsertCase item list (list', true)
    refused : length (bag list) ≡ max_allocation_requests → InsertCase item list (list, false)

  pub insert_case :
      (item : A) (list : RequestList A) → IsValid list → InsertCase item list (insert item list)
  insert_case item list v = elim (dec_lt (length (bag list)) max_allocation_requests) [
    | yes room ↦
        let (slots, e, ins) = insert_slot-Inserted item list.requests (omega (arith, v.slots)) in
        rw (insert_room item list slots (omega (arith, v.counted)) e) (
          inserted _ room
            (record {
              slots = omega (arith, ins.same_length, v.slots);
              counted = omega (arith, ins.counted, v.counted);
            })
            ins.counted ins.added)
    | no full ↦
        let whole : length (bag list) ≡ max_allocation_requests =
          omega (arith, v.slots, length-pending_le list.requests) in
        rw (insert_full item list (omega (arith, v.counted, whole))) (refused whole)
  ]

  -- The two outcomes of `Pop` on a valid list.
  pub data PopCase (list : RequestList A) : RequestList A × Option A → Type ℓ where
    popped :
        (item : A) (list' : RequestList A)
        → IsValid list'
        → bag list ≡ item ∷ bag list'
        → PopCase list (list', some item)
    drained : bag list ≡ [] → PopCase list (list, none)

  pub pop_case : (list : RequestList A) → IsValid list → PopCase list (pop list)
  pop_case list v = elim (dec_lt 0 (length (bag list))) [
    | yes some_left ↦
        let (item, slots, e, pop) = pop_slot-Popped list.requests some_left in
        rw
          (pop_present item list slots (omega (arith, v.counted))
            (omega (arith, v.counted, v.slots, length-pending_le list.requests)) e)
          (popped item _
            (record {
              slots = omega (arith, pop.same_length, v.slots);
              counted = omega (arith, ap length pop.split, v.counted);
            })
            pop.split)
    | no none_left ↦ rw (pop_empty list (omega (arith, v.counted))) (drained (ground arith))
  ]

  -- `Insert` on a valid list: with a free slot it answers true and adds the item to the bag;
  -- with none it answers false and changes nothing. Either way the list stays valid.
  pub insert_lem :
      (item : A) (list : RequestList A)
      → IsValid list
      → IsValid (insert item list).0
        × (length (bag list) < max_allocation_requests
            → ((insert item list).1 ≡ true) × Perm (bag (insert item list).0) (item ∷ bag list))
        × (length (bag list) ≡ max_allocation_requests → insert item list ≡ (list, false))
  insert_lem item list v = go (insert_case item list v)
    where
      go :
          {r : RequestList A × Bool}
          → InsertCase item list r
          → IsValid r.0
            × (length (bag list) < max_allocation_requests
                → (r.1 ≡ true) × Perm (bag r.0) (item ∷ bag list))
            × (length (bag list) ≡ max_allocation_requests → r ≡ (list, false))
      go (inserted list' room valid n perm) = (valid, λ h. (refl, perm), λ h. absurd (omega arith))
      go (refused full) = (v, λ h. absurd (omega arith), λ h. refl)

  -- `Pop` on a valid list: it takes the pending request of the lowest slot out of the bag, and on
  -- an empty bag it returns the zero request and changes nothing. The list stays valid.
  pub pop_lem :
      (list : RequestList A)
      → IsValid list
      → IsValid (pop list).0
        × ((item : A) (rest : List A)
            → bag list ≡ item ∷ rest
            → ((pop list).1 ≡ some item) × (bag (pop list).0 ≡ rest))
        × (bag list ≡ [] → pop list ≡ (list, none))
  pop_lem list v = go (pop_case list v)
    where
      go :
          {r : RequestList A × Option A}
          → PopCase list r
          → IsValid r.0
            × ((item : A) (rest : List A)
                → bag list ≡ item ∷ rest
                → (r.1 ≡ some item) × (bag r.0 ≡ rest))
            × (bag list ≡ [] → r ≡ (list, none))
      go (popped x list' valid split) = (valid, λ item rest e. (cc, cc), λ e. absurd (ground arith))
      go (drained empty) = (v, λ item rest e. absurd (ground arith), λ e. refl)

  -- The list is no queue: with its lowest slot free, the newest request is served before every
  -- request that waits already.
  pub insert_overtakes :
      (item old : A) (rest : List (RequestItem A)) (n : ℕ)
      → n < max_allocation_requests
      → (pop
          (insert item (record {
            requests = record { request = old; is_used = false } ∷ rest;
            items_count = n;
          })).0).1
        ≡ some item
  unfolding insert insert_slot pop pop_slot
  insert_overtakes item old rest n h = ground arith
