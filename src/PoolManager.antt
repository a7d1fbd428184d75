-- ===== src/PoolManager.antt =====
-- NovaHypervisor/PoolManager.cpp and PoolManager.h: the pool of preallocated buffers. Each list of
-- buffers has its own lock, so `AllocateInternal`, `FreeInternal` and `FindFreeSlot` are atomic
-- operations on it. A doubly linked list is the list of its entries from `Head.Flink` on, and a
-- null pointer is 0. What the kernel's allocator returns is an argument.
pub mod Poll
pub mod Slots
pub mod Invariant
pub mod Threads
pub mod Holding
pub mod Allocate
mod Tests
use nova_hypervisor.Base.{
  ℕ, zero, suc, ◌+◌, Bool, true, false, not, ◌&&◌, Option, none, some, List, [], ◌∷◌, ◌++◌, ◌==◌,
  ◌!=◌, if◌then◌else◌,
}
use nova_hypervisor.RequestList
use nova_hypervisor.RequestList.{RequestList}

-- `ALLOCATION_TYPE`; an object of the enumeration type may hold another number.
pub data AllocationType : Type 0 where
  split_2mb_paging_to_4kb_page ept_hook_page : AllocationType
  other : ℕ → AllocationType

pub record PoolAllocation : Type 0 where
  pub address : ℕ
  pub is_used : Bool
  pub type : AllocationType

pub record Pool : Type 0 where
  pub running : Bool
  pub paging_allocations : List PoolAllocation
  pub ept_hook_allocations : List PoolAllocation
  pub allocation_requests : RequestList AllocationType
  pub free_requests : RequestList PoolAllocation

abbrev pub is_valid_allocation_type : AllocationType → Bool
is_valid_allocation_type split_2mb_paging_to_4kb_page = true
is_valid_allocation_type ept_hook_page = true
is_valid_allocation_type (other _) = false

-- `sizeof(VMM_EPT_DYNAMIC_SPLIT)`, a page of entries and a pointer, aligned to a page; and
-- `sizeof(EPT_HOOKED_PAGE_DETAIL)`.
abbrev pub allocation_size : AllocationType → ℕ
allocation_size split_2mb_paging_to_4kb_page = 8192
allocation_size ept_hook_page = 80
allocation_size (other _) = 0

-- The zeroed request that `Request()` makes, where `Pop` found none.
abbrev pub type_or_zero : Option AllocationType → AllocationType
type_or_zero none = split_2mb_paging_to_4kb_page
type_or_zero (some type) = type

abbrev pub zero_allocation : PoolAllocation
zero_allocation = record { address = 0; is_used = false; type = split_2mb_paging_to_4kb_page }

abbrev pub allocation_or_zero : Option PoolAllocation → PoolAllocation
allocation_or_zero none = zero_allocation
allocation_or_zero (some allocation) = allocation

-- `header` and `address` are what the two calls of `AllocateVirtualMemory` return.
unfoldable pub allocate_internal : AllocationType → ℕ → ℕ → Pool → Pool × Bool
allocate_internal (other _) header address pool = (pool, false)
allocate_internal split_2mb_paging_to_4kb_page header address pool =
    if header == 0
    then (pool, false)
    else if address == 0
    then (pool, false)
    else (record pool { paging_allocations = pool.paging_allocations ++ slot ∷ [] }, true)
  where
    slot : PoolAllocation
    slot = record { address = address; is_used = false; type = split_2mb_paging_to_4kb_page }
allocate_internal ept_hook_page header address pool =
    if header == 0
    then (pool, false)
    else if address == 0
    then (pool, false)
    else (record pool { ept_hook_allocations = pool.ept_hook_allocations ++ slot ∷ [] }, true)
  where
    slot : PoolAllocation
    slot = record { address = address; is_used = false; type = ept_hook_page }

-- The loop of `FreeInternal`: the first entry with the address. `none`: no entry has it.
unfoldable pub release_slot : ℕ → List PoolAllocation → Option (List PoolAllocation)
release_slot address [] = none
release_slot address (slot ∷ rest) =
    let tail = release_slot address rest in
    if slot.address == address
    then some (record slot { is_used = false } ∷ rest)
    else elim tail [ none ↦ none | some rest' ↦ some (slot ∷ rest') ]

-- The new pool, and the region that was zeroed: its address and its size.
unfoldable pub free_internal : ℕ → AllocationType → Pool → Pool × Option (ℕ × ℕ)
free_internal address (other _) pool = (pool, none)
free_internal address split_2mb_paging_to_4kb_page pool =
    elim (release_slot address pool.paging_allocations) [
      | none ↦ (pool, none)
      | some slots ↦ (
        record pool { paging_allocations = slots },
        some (address, allocation_size split_2mb_paging_to_4kb_page),
      )
    ]
free_internal address ept_hook_page pool = elim (release_slot address pool.ept_hook_allocations) [
  | none ↦ (pool, none)
  | some slots ↦
      (record pool { ept_hook_allocations = slots }, some (address, allocation_size ept_hook_page))
]

-- The loop of `FindFreeSlot`: the first entry that is not in use.
unfoldable pub claim_slot : List PoolAllocation → Option (ℕ × List PoolAllocation)
claim_slot [] = none
claim_slot (slot ∷ rest) =
    let tail = claim_slot rest in
    elim slot.is_used [
      | false ↦ some (slot.address, record slot { is_used = true } ∷ rest)
      | true ↦ elim tail [ none ↦ none | some (address, rest') ↦ some (address, slot ∷ rest') ]
    ]

unfoldable pub find_free_slot : AllocationType → Pool → Pool × ℕ
find_free_slot (other _) pool = (pool, 0)
find_free_slot split_2mb_paging_to_4kb_page pool = elim (claim_slot pool.paging_allocations) [
  | none ↦ (pool, 0)
  | some (address, slots) ↦ (record pool { paging_allocations = slots }, address)
]
find_free_slot ept_hook_page pool = elim (claim_slot pool.ept_hook_allocations) [
  | none ↦ (pool, 0)
  | some (address, slots) ↦ (record pool { ept_hook_allocations = slots }, address)
]

-- `allocationRequests.Insert` and `freeRequests.Insert`, as operations of the pool.
unfoldable pub request_allocation : AllocationType → Pool → Pool × Bool
request_allocation type pool =
    let (requests, queued) = RequestList.insert type pool.allocation_requests in
    (record pool { allocation_requests = requests }, queued)

unfoldable pub request_free : PoolAllocation → Pool → Pool × Bool
request_free allocation pool =
    let (requests, queued) = RequestList.insert allocation pool.free_requests in
    (record pool { free_requests = requests }, queued)

-- Where the allocation thread is between two of its atomic operations, with the local variable
-- that it still needs.
pub data AllocationStep : Type 0 where
  tests_requests pops_request : AllocationStep
  allocates : AllocationType → AllocationStep
  updates_running stopped : AllocationStep

-- One atomic operation of `ProcessAllocation`: each call takes and releases its own lock.
unfoldable pub process_allocation : ℕ → ℕ → AllocationStep → Pool → AllocationStep × Pool
process_allocation header address tests_requests pool =
    if RequestList.get_list_size pool.allocation_requests == 0
    then (updates_running, pool)
    else (pops_request, pool)
process_allocation header address pops_request pool =
    let (requests, item) = RequestList.pop pool.allocation_requests in
    (allocates (type_or_zero item), record pool { allocation_requests = requests })
process_allocation header address (allocates type) pool =
    (updates_running, (allocate_internal type header address pool).0)
process_allocation header address updates_running pool =
    (if pool.running then tests_requests else stopped, pool)
process_allocation header address stopped pool = (stopped, pool)

-- The two loops of `ProcessFree`.
pub data FreeLoop : Type 0 where
  periodic remaining : FreeLoop

-- Where the free thread is, with the local variable `allocation` that it still needs.
pub data FreeStep : Type 0 where
  tests pops : FreeLoop → FreeStep
  frees : FreeLoop → PoolAllocation → FreeStep
  updates checks_remaining ended : FreeStep

-- After a round of the loop, and where the loop finds no request.
abbrev pub next_round : FreeLoop → FreeStep
next_round periodic = updates
next_round remaining = tests remaining

abbrev pub no_request : FreeLoop → FreeStep
no_request periodic = updates
no_request remaining = ended

-- One atomic operation of `ProcessFree`. A request that has been popped is in the thread's hands
-- until the next one frees it.
unfoldable pub process_free : FreeStep → Pool → FreeStep × Pool
process_free (tests loop) pool =
    (if RequestList.get_list_size pool.free_requests == 0 then no_request loop else pops loop, pool)
process_free (pops loop) pool =
    let (requests, item) = RequestList.pop pool.free_requests in
    (frees loop (allocation_or_zero item), record pool { free_requests = requests })
process_free (frees loop allocation) pool = (
  next_round loop,
  if allocation.address != 0
      then (free_internal allocation.address allocation.type pool).0
      else pool,
)
process_free updates pool = (if pool.running then tests periodic else checks_remaining, pool)
process_free checks_remaining pool =
    (if RequestList.get_list_size pool.free_requests == 0 then ended else tests remaining, pool)
process_free ended pool = (ended, pool)

-- The part of `StopThreads` under `runningLock`.
unfoldable pub stop_running : Pool → Pool
stop_running pool = record pool { running = false }
