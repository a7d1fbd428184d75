-- ===== src/PoolManager/Holding.antt =====
-- A buffer that PoolManager.cpp has handed out stays with its caller until the caller frees it.
use mathlib.Core.Path.{subst}
use mathlib.Core.HLevel.{Π_prop}
use mathlib.Core.Logic.Or
use mathlib.Core.List.{Perm, mem-cons, mem-cons_self, mem-cons_of_mem}
use mathlib.Core.List.Perm
use nova_hypervisor.Base.{
  ℕ, ◌≡◌, ◌≢◌, refl, sym, ap, ◌∙◌, inl, inr, Bool, true, false, Option, List, ◌∷◌, arith,
  Bool-cases, ◌==◌, ◌!=◌,
}
use nova_hypervisor.RequestList
use nova_hypervisor.RequestList.{RequestList}
use nova_hypervisor.RequestList.Laws.{
  bag, insert_case, pop_case, InsertCase, inserted, refused, PopCase, popped, drained,
}
use nova_hypervisor.PoolManager.{
  Pool, PoolAllocation, AllocationType, find_free_slot, request_allocation, request_free,
  AllocationStep, tests_requests, pops_request, allocates, updates_running, stopped, FreeLoop,
  periodic, remaining, FreeStep, tests, pops, frees, updates, checks_remaining, ended, next_round,
  no_request, process_allocation, process_free, stop_running, allocation_or_zero, allocate_internal,
}
use nova_hypervisor.PoolManager.Invariant.{
  WellFormed, handed_out, has_buffer, Grown, FindCase, found, missing, find_case, FreeCase,
  taken_back, unknown, free_case, allocate_internal-Grown,
}
use nova_hypervisor.PoolManager.Threads.{
  Machine, Unasked, Unheld, Event, claims, asks, returns, serves, reclaims, stops, apply, IsFresh,
  Holds, IsKept, apply-WellFormed,
}

ne_prop : {m n : ℕ} → IsProp (m ≢ n)
ne_prop = Π_prop λ e. λ x y. absurd x

Unasked-insert :
    (a : ℕ) (x : PoolAllocation) (xs ys : List PoolAllocation)
    → x.address ≢ a
    → Perm ys (x ∷ xs)
    → Unasked a xs
    → Unasked a ys
Unasked-insert a x xs ys ne perm un y m =
    Or.elim ne_prop (mem-cons.0 (Perm.subset perm y m))
      (λ e. λ h. ne (sym (ap (λ z. z.address) e) ∙ h)) (un y)

module _ (a : ℕ) (m : Machine) (h : Holds a m) where
  find-Holds :
      {type : AllocationType} {r : Pool × ℕ}
      → FindCase type m.pool r
      → Holds a (record m { pool = r.0 })
  find-Holds (found q b n unused owned t) = record {
    well_formed = t.well_formed;
    out = t.elsewhere a (λ e. cc) ∙ h.out;
    unasked = subst (λ r. Unasked a (bag r)) (sym t.free_requests) h.unasked;
    unheld = h.unheld;
  }
  find-Holds (missing e) = record {
    well_formed = h.well_formed;
    out = h.out;
    unasked = h.unasked;
    unheld = h.unheld;
  }

  return-out :
      {x : PoolAllocation} {r : RequestList PoolAllocation × Bool}
      → x.address ≢ a
      → InsertCase x m.pool.free_requests r
      → Unasked a (bag r.0)
  return-out ne (inserted l room v n perm) = Unasked-insert a _ _ _ ne perm h.unasked
  return-out ne (refused full) = h.unasked

  freed :
      {b : ℕ} {type : AllocationType} {q : Pool}
      → b ≢ a
      → FreeCase b type m.pool q
      → (handed_out a q ≡ true) × Unasked a (bag q.free_requests)
  freed ne (taken_back q t) = (
    t.elsewhere a (λ e. ne (sym e)) ∙ h.out,
    subst (λ r. Unasked a (bag r)) (sym t.free_requests) h.unasked,
  )
  freed ne (unknown e) = (h.out, h.unasked)

-- The request that `Pop` takes out is not one for `a`, and none of those left is.
pop-Unasked :
    (a : ℕ) {l : RequestList PoolAllocation}
    {r : RequestList PoolAllocation × Option PoolAllocation}
    → a ≢ 0
    → PopCase l r
    → Unasked a (bag l)
    → ((allocation_or_zero r.1).address ≢ a) × Unasked a (bag r.0)
pop-Unasked a pos (popped item l' v split) un =
    let un' = subst (Unasked a) split un in
    (un' item mem-cons_self, λ x m. un' x (mem-cons_of_mem item m))
pop-Unasked a pos (drained e) un = (λ z. pos (sym z), un)

next_round-Unheld : (a : ℕ) (loop : FreeLoop) → Unheld a (next_round loop)
next_round-Unheld a periodic = tt
next_round-Unheld a remaining = tt

no_request-Unheld : (a : ℕ) (loop : FreeLoop) → Unheld a (no_request loop)
no_request-Unheld a periodic = tt
no_request-Unheld a remaining = tt

process_free-out :
    (a : ℕ) (m : Machine) (s : FreeStep)
    → a ≢ 0
    → Holds a m
    → Unheld a s
    → let r = process_free s m.pool in
      (handed_out a r.1 ≡ true) × Unasked a (bag r.1.free_requests) × Unheld a r.0
unfolding process_free
process_free-out a m (tests loop) pos h u =
    elim (Bool-cases (RequestList.get_list_size m.pool.free_requests == 0)) [
      | inl none_left ↦ rw none_left (h.out, h.unasked, no_request-Unheld a loop)
      | inr some_left ↦ rw some_left (h.out, h.unasked, tt)
    ]
process_free-out a m (pops loop) pos h u =
    let apart = pop-Unasked a pos (pop_case _ h.well_formed.free_valid) h.unasked in
    (h.out, apart.1, apart.0)
process_free-out a m (frees loop x) pos h u = elim (Bool-cases (x.address != 0)) [
  | inl real ↦
      let kept = freed a m h u (free_case x.address x.type m.pool h.well_formed) in
      rw real (kept.0, kept.1, next_round-Unheld a loop)
  | inr null ↦ rw null (h.out, h.unasked, next_round-Unheld a loop)
]
process_free-out a m updates pos h u = elim (Bool-cases m.pool.running) [
  | inl on ↦ rw on (h.out, h.unasked, tt)
  | inr off ↦ rw off (h.out, h.unasked, tt)
]
process_free-out a m checks_remaining pos h u =
    elim (Bool-cases (RequestList.get_list_size m.pool.free_requests == 0)) [
      | inl none_left ↦ rw none_left (h.out, h.unasked, tt)
      | inr some_left ↦ rw some_left (h.out, h.unasked, tt)
    ]
process_free-out a m ended pos h u = (h.out, h.unasked, tt)

process_allocation-out :
    (a header address : ℕ) (m : Machine) (s : AllocationStep)
    → has_buffer address m.pool ≡ false
    → Holds a m
    → let p = (process_allocation header address s m.pool).1 in
      (handed_out a p ≡ true) × Unasked a (bag p.free_requests)
unfolding process_allocation
process_allocation-out a header address m tests_requests fresh h =
    elim (Bool-cases (RequestList.get_list_size m.pool.allocation_requests == 0)) [
      | inl none_left ↦ rw none_left (h.out, h.unasked)
      | inr some_left ↦ rw some_left (h.out, h.unasked)
    ]
process_allocation-out a header address m pops_request fresh h = (h.out, h.unasked)
process_allocation-out a header address m (allocates type) fresh h =
    let g : Grown m.pool (allocate_internal type header address m.pool).0 =
      allocate_internal-Grown type header address m.pool h.well_formed fresh in
    (g.same a ∙ h.out, subst (λ r. Unasked a (bag r)) (sym g.free_requests) h.unasked)
process_allocation-out a header address m updates_running fresh h = (h.out, h.unasked)
process_allocation-out a header address m stopped fresh h = (h.out, h.unasked)

-- A buffer that is handed out, and that nobody has asked or asks to free, stays handed out.
pub apply-Holds :
    (a : ℕ) (e : Event) (m : Machine)
    → a ≢ 0
    → IsFresh e m
    → IsKept a e
    → Holds a m
    → Holds a (apply e m)
unfolding apply request_allocation request_free stop_running
apply-Holds a (claims type) m pos f k h = find-Holds a m h (find_case type m.pool h.well_formed)
apply-Holds a (asks type) m pos f k h = record {
  well_formed = apply-WellFormed (asks type) m f h.well_formed;
  out = h.out;
  unasked = h.unasked;
  unheld = h.unheld;
}
apply-Holds a (returns x) m pos f k h = record {
  well_formed = apply-WellFormed (returns x) m f h.well_formed;
  out = h.out;
  unasked = return-out a m h k (insert_case x _ h.well_formed.free_valid);
  unheld = h.unheld;
}
apply-Holds a (serves header address) m pos f k h =
    let kept = process_allocation-out a header address m m.allocation_step f h in
    record {
      well_formed = apply-WellFormed (serves header address) m f h.well_formed;
      out = kept.0;
      unasked = kept.1;
      unheld = h.unheld;
    }
apply-Holds a reclaims m pos f k h =
    let kept = process_free-out a m m.free_step pos h h.unheld in
    record {
      well_formed = apply-WellFormed reclaims m f h.well_formed;
      out = kept.0;
      unasked = kept.1;
      unheld = kept.2;
    }
apply-Holds a stops m pos f k h = record {
  well_formed = apply-WellFormed stops m f h.well_formed;
  out = h.out;
  unasked = h.unasked;
  unheld = h.unheld;
}

-- A history in which every new buffer is fresh and no event asks to free `a`.
pub data History (a : ℕ) : Machine → Machine → Type 0 where
  done : {m : Machine} → History a m m
  after :
      {m n : Machine} (e : Event)
      → IsFresh e m
      → IsKept a e
      → History a (apply e m) n
      → History a m n

pub History-Holds : {a : ℕ} {m n : Machine} → a ≢ 0 → History a m n → Holds a m → Holds a n
History-Holds pos done h = h
History-Holds {a} {m} pos (after e f k rest) h =
    History-Holds pos rest (apply-Holds a e m pos f k h)

-- Let `FindFreeSlot` hand the buffer `a` out at a moment when the pool is well formed and no request
-- to free `a` is pending, in the table or in the local variable of the free thread. While no caller
-- asks to free `a` and the kernel's allocator returns memory that is not in the pool, no later call
-- hands `a` out again, whatever the callers and the single steps of the two threads do in between.
pub no_double_allocation :
    (first again : AllocationType) (m n : Machine)
    → WellFormed m.pool
    → (find_free_slot first m.pool).1 ≢ 0
    → Unasked (find_free_slot first m.pool).1 (bag m.pool.free_requests)
    → Unheld (find_free_slot first m.pool).1 m.free_step
    → History (find_free_slot first m.pool).1 (apply (claims first) m) n
    → (find_free_slot again n.pool).1 ≢ (find_free_slot first m.pool).1
unfolding apply
no_double_allocation first again m n wf pos un held hist =
    apart (find_case again n.pool end.well_formed)
  where
    begin :
        {r : Pool × ℕ}
        → r.1 ≢ 0
        → Unasked r.1 (bag m.pool.free_requests)
        → Unheld r.1 m.free_step
        → FindCase first m.pool r
        → Holds r.1 (record m { pool = r.0 })
    begin ne u free (found q' a some_buffer unused owned t) = record {
      well_formed = t.well_formed;
      out = t.now;
      unasked = subst (λ r. Unasked a (bag r)) (sym t.free_requests) u;
      unheld = free;
    }
    begin ne u free (missing e) = absurd (ne refl)

    end : Holds (find_free_slot first m.pool).1 n
    end = History-Holds pos hist (begin pos un held (find_case first m.pool wf))

    apart : {r : Pool × ℕ} → FindCase again n.pool r → r.1 ≢ (find_free_slot first m.pool).1
    apart (found q' b ne unused owned t) e = ground (arith, end.out)
    apart (missing e') e = pos (sym e)
