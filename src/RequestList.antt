-- ===== src/RequestList.antt =====
-- NovaHypervisor/RequestList.hpp: the bounded table of requests that the callers of the pool
-- share with its two threads. Each member function runs under the list's lock, so each is one
-- atomic operation. The table is a list of slots in the order of their indices.
pub mod Slots
pub mod Laws
mod Tests
use nova_hypervisor.Base.{
  ℕ, zero, suc, ◌+◌, ◌-◌, ◌%◌, ◌^◌, Bool, true, false, Option, none, some, List, [], ◌∷◌, ◌==◌,
  if◌then◌else◌, replicate,
}

abbrev pub max_allocation_requests : ℕ
max_allocation_requests = 100

pub record RequestItem {ℓ} (A : Type ℓ) : Type ℓ where
  pub request : A
  pub is_used : Bool

pub record RequestList {ℓ} (A : Type ℓ) : Type ℓ where
  pub requests : List (RequestItem A)
  pub items_count : ℕ

module _ {ℓ} {A : Type ℓ} where
  -- The constructor zeroes the table; `zeroed` is the request whose bytes are all 0.
  unfoldable pub create : A → RequestList A
  create zeroed = record {
    requests = replicate max_allocation_requests (record { request = zeroed; is_used = false });
    items_count = 0;
  }

  -- The loop of `Insert`: the first slot that is not in use takes the item.
  unfoldable pub insert_slot : A → List (RequestItem A) → Option (List (RequestItem A))
  insert_slot item [] = none
  insert_slot item (slot ∷ rest) =
      let tail = insert_slot item rest in
      elim slot.is_used [
        | false ↦ some (record { request = item; is_used = true } ∷ rest)
        | true ↦ elim tail [ none ↦ none | some rest' ↦ some (slot ∷ rest') ]
      ]

  unfoldable pub insert : A → RequestList A → RequestList A × Bool
  insert item list =
      if list.items_count == max_allocation_requests
      then (list, false)
      else elim (insert_slot item list.requests) [
        | none ↦ (list, false)
        | some requests ↦
            (record { requests = requests; items_count = (list.items_count + 1) % 2 ^ 64 }, true)
      ]

  -- The loop of `Pop`: the first slot in use gives its request up.
  unfoldable pub pop_slot : List (RequestItem A) → Option (A × List (RequestItem A))
  pop_slot [] = none
  pop_slot (slot ∷ rest) =
      let tail = pop_slot rest in
      elim slot.is_used [
        | true ↦ some (slot.request, record slot { is_used = false } ∷ rest)
        | false ↦ elim tail [ none ↦ none | some (item, rest') ↦ some (item, slot ∷ rest') ]
      ]

  -- `none` stands for the returned `Request()`, a request whose bytes are all 0.
  unfoldable pub pop : RequestList A → RequestList A × Option A
  pop list = if list.items_count == 0 then (list, none) else elim (pop_slot list.requests) [
    | none ↦ (list, none)
    | some (item, requests) ↦ (
      record { requests = requests; items_count = (list.items_count + 2 ^ 64 - 1) % 2 ^ 64 },
      some item,
    )
  ]

  unfoldable pub get_list_size : RequestList A → ℕ
  get_list_size list = list.items_count
