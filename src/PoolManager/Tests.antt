-- ===== src/PoolManager/Tests.antt =====
-- Runs of the pool at concrete inputs.
use mathlib.Core.List.{not-mem-nil}
use mathlib.Core.Path.{subst}
use nova_hypervisor.Base.{ℕ, ◌≡◌, ◌≢◌, refl, sym, ◌∙◌, true, false, [], ◌∷◌, arith}
use nova_hypervisor.RequestList.{create}
use nova_hypervisor.RequestList.Laws.{create-IsValid, pending_unused, bag}
use nova_hypervisor.PoolManager.{
  Pool, PoolAllocation, split_2mb_paging_to_4kb_page, zero_allocation, find_free_slot, claim_slot,
  periodic, frees, allocates,
}
use nova_hypervisor.PoolManager.Slots.{owns}
use nova_hypervisor.PoolManager.Invariant.{WellFormed, has_buffer}
use nova_hypervisor.PoolManager.Threads.{
  Machine, apply, apply-WellFormed, claims, serves, reclaims, Unasked, Unheld,
}
use nova_hypervisor.PoolManager.Holding.{after, done, no_double_allocation}
use nova_hypervisor.PoolManager.Allocate.{allocate, Answered, allocate-Answered}

abbrev page : PoolAllocation
page = record { address = 4096; is_used = false; type = split_2mb_paging_to_4kb_page }

abbrev small : Pool
small = record {
  running = true;
  paging_allocations = page ∷ [];
  ept_hook_allocations = [];
  allocation_requests = create split_2mb_paging_to_4kb_page;
  free_requests = create zero_allocation;
}

small-WellFormed : WellFormed small
unfolding owns
small-WellFormed = record {
  paging = (ground arith, refl, tt);
  hooks = tt;
  apart = λ a. ground arith;
  allocation_valid = create-IsValid _;
  free_valid = create-IsValid _;
}

-- The allocation thread is about to allocate; the free thread has popped a request for another
-- buffer.
abbrev machine : Machine
machine = record {
  pool = small;
  allocation_step = allocates split_2mb_paging_to_4kb_page;
  free_step = frees periodic (record page { address = 12288 });
}

fresh : has_buffer 8192 small ≡ false
unfolding owns
fresh = refl

apply-WellFormed_example : WellFormed (apply (serves 512 8192) machine).pool
apply-WellFormed_example = apply-WellFormed (serves 512 8192) machine fresh small-WellFormed

allocate-Answered_example :
    Answered split_2mb_paging_to_4kb_page (allocate (λ n p. p) split_2mb_paging_to_4kb_page small)
allocate-Answered_example =
    allocate-Answered (λ n p. p) (λ n p h. h) split_2mb_paging_to_4kb_page small small-WellFormed

first : (find_free_slot split_2mb_paging_to_4kb_page small).1 ≡ 4096
unfolding find_free_slot claim_slot
first = refl

present : (find_free_slot split_2mb_paging_to_4kb_page small).1 ≢ 0
present e = absurd (ground (arith, sym first ∙ e))

nobody : (a : ℕ) → Unasked a (bag small.free_requests)
unfolding create
nobody a =
    subst (Unasked a) (sym (pending_unused 100 zero_allocation)) (λ x m. absurd (not-mem-nil m))

other_buffer : Unheld (find_free_slot split_2mb_paging_to_4kb_page small).1 machine.free_step
other_buffer e = absurd (ground (arith, e, first))

no_double_allocation_example :
    (find_free_slot split_2mb_paging_to_4kb_page
      (apply reclaims (apply (claims split_2mb_paging_to_4kb_page) machine)).pool).1
    ≢ (find_free_slot split_2mb_paging_to_4kb_page small).1
no_double_allocation_example =
    no_double_allocation split_2mb_paging_to_4kb_page split_2mb_paging_to_4kb_page machine _
      small-WellFormed present (nobody _) other_buffer (after reclaims tt tt done)
