-- ===== src/PoolManager/Threads.antt =====
-- Every atomic operation on the pool that PoolManager.cpp makes, in any order: the callers'
-- parts of `Allocate` and `Free`, the steps of the two threads and the stop. Each thread holds in
-- a local variable what it has popped, so another event may come before it is acted on.
use nova_hypervisor.Base.{
  ℕ, ◌≡◌, ◌≢◌, inl, inr, Bool, true, false, Option, List, Bool-cases, ◌==◌, ◌!=◌,
}
use mathlib.Core.List.{Mem}
use nova_hypervisor.RequestList
use nova_hypervisor.RequestList.{RequestList}
use nova_hypervisor.RequestList.Laws.{
  IsValid, bag, insert_case, pop_case, InsertCase, inserted, refused, PopCase, popped, drained,
}
use nova_hypervisor.PoolManager.{
  Pool, PoolAllocation, AllocationType, find_free_slot, request_allocation, request_free,
  AllocationStep, tests_requests, pops_request, allocates, updates_running, stopped, FreeStep,
  tests, pops, frees, updates, checks_remaining, ended, process_allocation, process_free,
  stop_running,
}
use nova_hypervisor.PoolManager.Invariant.{
  WellFormed, handed_out, has_buffer, FindCase, found, missing, find_case, FreeCase, taken_back,
  unknown, free_case, allocate_internal-Grown,
}

-- No entry of the list asks to free the address.
abbrev pub Unasked : ℕ → List PoolAllocation → Type 0
Unasked a xs = (x : PoolAllocation) → Mem x xs → x.address ≢ a

-- The pool with its two threads.
pub record Machine : Type 0 where
  pub pool : Pool
  pub allocation_step : AllocationStep
  pub free_step : FreeStep

pub data Event : Type 0 where
  claims : AllocationType → Event
  asks : AllocationType → Event
  returns : PoolAllocation → Event
  serves : ℕ → ℕ → Event
  reclaims stops : Event

unfoldable pub apply : Event → Machine → Machine
apply (claims type) m = record m { pool = (find_free_slot type m.pool).0 }
apply (asks type) m = record m { pool = (request_allocation type m.pool).0 }
apply (returns allocation) m = record m { pool = (request_free allocation m.pool).0 }
apply (serves header address) m =
    let (step, pool) = process_allocation header address m.allocation_step m.pool in
    record m { pool = pool; allocation_step = step }
apply reclaims m =
    let (step, pool) = process_free m.free_step m.pool in record m { pool = pool; free_step = step }
apply stops m = record m { pool = stop_running m.pool }

-- The kernel's allocator returns memory that is not in the pool.
abbrev pub IsFresh : Event → Machine → Type 0
IsFresh (serves header address) m = has_buffer address m.pool ≡ false
IsFresh _ m = Unit {0}

pub with_requests-WellFormed :
    (p : Pool) (r : RequestList AllocationType)
    → WellFormed p
    → IsValid r
    → WellFormed (record p { allocation_requests = r })
with_requests-WellFormed p r wf v = record {
  paging = wf.paging;
  hooks = wf.hooks;
  apart = wf.apart;
  allocation_valid = v;
  free_valid = wf.free_valid;
}

pub with_frees-WellFormed :
    (p : Pool) (r : RequestList PoolAllocation)
    → WellFormed p
    → IsValid r
    → WellFormed (record p { free_requests = r })
with_frees-WellFormed p r wf v = record {
  paging = wf.paging;
  hooks = wf.hooks;
  apart = wf.apart;
  allocation_valid = wf.allocation_valid;
  free_valid = v;
}

-- The free thread holds no request to free the address.
abbrev pub Unheld : ℕ → FreeStep → Type 0
Unheld a (frees loop x) = x.address ≢ a
Unheld a _ = Unit {0}

-- The buffer `a` is handed out, and no request to free it is in the table or in the thread's hands.
pub record Holds (a : ℕ) (m : Machine) : Type 0 where
  pub well_formed : WellFormed m.pool
  pub out : handed_out a m.pool ≡ true
  pub unasked : Unasked a (bag m.pool.free_requests)
  pub unheld : Unheld a m.free_step

-- The event does not ask to free `a`.
abbrev pub IsKept : ℕ → Event → Type 0
IsKept a (returns allocation) = allocation.address ≢ a
IsKept a _ = Unit {0}

module _ (p : Pool) (wf : WellFormed p) where
  pub find-WellFormed : {type : AllocationType} {r : Pool × ℕ} → FindCase type p r → WellFormed r.0
  find-WellFormed (found q a n unused owned t) = t.well_formed
  find-WellFormed (missing e) = wf

  pub ask-WellFormed :
      {type : AllocationType} {r : RequestList AllocationType × Bool}
      → InsertCase type p.allocation_requests r
      → WellFormed (record p { allocation_requests = r.0 })
  ask-WellFormed (inserted l room v n perm) = with_requests-WellFormed p l wf v
  ask-WellFormed (refused full) = wf

  pub return-WellFormed :
      {x : PoolAllocation} {r : RequestList PoolAllocation × Bool}
      → InsertCase x p.free_requests r
      → WellFormed (record p { free_requests = r.0 })
  return-WellFormed (inserted l room v n perm) = with_frees-WellFormed p l wf v
  return-WellFormed (refused full) = wf

  pub served :
      {r : RequestList AllocationType × Option AllocationType}
      → PopCase p.allocation_requests r
      → IsValid r.0
  served (popped item l v split) = v
  served (drained e) = wf.allocation_valid

  taken-WellFormed : {a : ℕ} {type : AllocationType} {q : Pool} → FreeCase a type p q → WellFormed q
  taken-WellFormed (taken_back q t) = t.well_formed
  taken-WellFormed (unknown e) = wf

pub reclaim-IsValid :
    {p : Pool} {r : RequestList PoolAllocation × Option PoolAllocation}
    → WellFormed p
    → PopCase p.free_requests r
    → IsValid r.0
reclaim-IsValid wf (popped item l v split) = v
reclaim-IsValid wf (drained e) = wf.free_valid

process_free-WellFormed : (s : FreeStep) (p : Pool) → WellFormed p → WellFormed (process_free s p).1
unfolding process_free
process_free-WellFormed (tests loop) p wf = wf
process_free-WellFormed (pops loop) p wf =
    with_frees-WellFormed p _ wf (reclaim-IsValid wf (pop_case _ wf.free_valid))
process_free-WellFormed (frees loop x) p wf = elim (Bool-cases (x.address != 0)) [
  | inl real ↦ rw real (taken-WellFormed p wf (free_case x.address x.type p wf))
  | inr null ↦ rw null wf
]
process_free-WellFormed updates p wf = wf
process_free-WellFormed checks_remaining p wf = wf
process_free-WellFormed ended p wf = wf

process_allocation-WellFormed :
    (header address : ℕ) (s : AllocationStep) (p : Pool)
    → has_buffer address p ≡ false
    → WellFormed p
    → WellFormed (process_allocation header address s p).1
unfolding process_allocation
process_allocation-WellFormed header address tests_requests p f wf =
    elim (Bool-cases (RequestList.get_list_size p.allocation_requests == 0)) [
      | inl none_left ↦ rw none_left wf
      | inr some_left ↦ rw some_left wf
    ]
process_allocation-WellFormed header address pops_request p f wf =
    with_requests-WellFormed p _ wf (served p wf (pop_case _ wf.allocation_valid))
process_allocation-WellFormed header address (allocates type) p f wf =
    (allocate_internal-Grown type header address p wf f).well_formed
process_allocation-WellFormed header address updates_running p f wf = wf
process_allocation-WellFormed header address stopped p f wf = wf

-- Every event keeps the pool well formed, if the kernel's allocator returns memory that is not in
-- the pool.
pub apply-WellFormed :
    (e : Event) (m : Machine) → IsFresh e m → WellFormed m.pool → WellFormed (apply e m).pool
unfolding apply request_allocation request_free stop_running
apply-WellFormed (claims type) m f wf = find-WellFormed m.pool wf (find_case type m.pool wf)
apply-WellFormed (asks type) m f wf =
    ask-WellFormed m.pool wf (insert_case type _ wf.allocation_valid)
apply-WellFormed (returns x) m f wf = return-WellFormed m.pool wf (insert_case x _ wf.free_valid)
apply-WellFormed (serves header address) m f wf =
    process_allocation-WellFormed header address m.allocation_step m.pool f wf
apply-WellFormed reclaims m f wf = process_free-WellFormed m.free_step m.pool wf
apply-WellFormed stops m f wf = record {
  paging = wf.paging;
  hooks = wf.hooks;
  apart = wf.apart;
  allocation_valid = wf.allocation_valid;
  free_valid = wf.free_valid;
}
