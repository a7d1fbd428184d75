-- ===== src/Ept/Table.antt =====
-- The extended page tables of NovaHypervisor/Ept.cpp: where an entry stands, how the identity map is
-- built, and how a page of 2 MB is split. `memory` maps the virtual address of an entry to its word,
-- `pa` is what `MmGetPhysicalAddress` answers and `va` what `MmGetVirtualForPhysical` answers.
pub mod Fill
pub mod Walk
pub mod Split
pub mod Identity
pub mod Initialize
pub mod Processor
pub mod Raise
mod Tests
use nova_hypervisor.Base.{
  ℕ, zero, suc, ◌+◌, ◌-◌, ◌*◌, ◌/◌, ◌%◌, ◌^◌, Bool, true, false, not, ◌&&◌, ◌==◌, ltb, truthy,
  if◌then◌else◌, Option, none, some,
}
use nova_hypervisor.PoolManager.{AllocationType, split_2mb_paging_to_4kb_page}
use nova_hypervisor.Ept.Entry.{
  set_read_access, set_write_access, set_execute_access, memory_type_of, set_memory_type,
  ignore_pat, set_ignore_pat, suppress_ve, set_suppress_ve, large_page, set_large_page, large_frame,
  set_large_frame, frame, set_frame, pml1_index, pml2_index, pml3_index, pml4_index,
  set_ept_memory_type, set_page_walk_length, set_enable_access_and_dirty_flags,
}
use nova_hypervisor.Ept.Mtrr.{
  MtrrMap, get_memory_type, is_valid_for_large_page, size_2_mb, page_size, uncacheable, write_back,
}
use nova_hypervisor.Ept.Hooks.{put}

-- A loop that counts up to a bound.
unfoldable pub count_up {ℓ} : {S : Type ℓ} → ℕ → (ℕ → S → S) → S → S
count_up zero body s = s
count_up (suc n) body s = body n (count_up n body s)

-- How the set-up of an entry ends: with an answer, or in an exception, as where NULL is
-- dereferenced.
pub data SetupOutcome : Type 0 where
  succeeds fails raises : SetupOutcome

abbrev setup_outcome_of : Bool → SetupOutcome
setup_outcome_of true = succeeds
setup_outcome_of false = fails

-- The next round, if the last one succeeded.
abbrev after_round {ℓ} : {S : Type ℓ} → SetupOutcome → (S → S × SetupOutcome) → S → S × SetupOutcome
after_round succeeds body s = body s
after_round fails body s = (s, fails)
after_round raises body s = (s, raises)

-- The same with a body that may fail or raise, and then ends it.
unfoldable pub for_each {ℓ} : {S : Type ℓ} → ℕ → (ℕ → S → S × SetupOutcome) → S → S × SetupOutcome
for_each zero body s = (s, succeeds)
for_each (suc n) body s = let (s', outcome) = for_each n body s in after_round outcome (body n) s'

-- The answer of `AllocateAndCreateIdentityPageTable`, and that of `LogicalProcessorInitialize` with
-- the new `eptPageTable` and `eptPointer`; in the last case of each there is none.
pub data CreateOutcome : Type 0 where
  created : ℕ → CreateOutcome
  not_created raised_in_set_up : CreateOutcome

pub data InitializeOutcome : Type 0 where
  initialized : ℕ → ℕ → InitializeOutcome
  refused raised : InitializeOutcome

-- `__stosq`; with the value 0, `RtlSecureZeroMemory` on as many words.
unfoldable pub stosq : ℕ → ℕ → ℕ → (ℕ → ℕ) → ℕ → ℕ
stosq destination value count = count_up count (λ i. put (destination + i * 8) value)

-- `VMM_EPT_PAGE_TABLE`: PML4, PML3 and PML2 stand one after the other.
abbrev pub pml3_of : ℕ → ℕ
pml3_of table = table + 4096

abbrev pub pml2_of : ℕ → ℕ
pml2_of table = table + 8192

abbrev pub page_table_words : ℕ
page_table_words = 263168

-- `VMM_EPT_DYNAMIC_SPLIT`: PML1, then `Entry`, up to the next multiple of the page size.
abbrev pub dynamic_split_words : ℕ
dynamic_split_words = 1024

abbrev pub pml2_address : ℕ → ℕ → ℕ
pml2_address table physical = pml2_of table + (pml3_index physical * 512 + pml2_index physical) * 8

-- All accesses, the rest clear.
abbrev pub read_write_execute : ℕ
read_write_execute = set_execute_access 1 (set_write_access 1 (set_read_access 1 0))

unfoldable pub get_pml2_entry : ℕ → ℕ → Option ℕ
get_pml2_entry table physical =
    if ltb 0 (pml4_index physical) then none else some (pml2_address table physical)

-- `none` is NULL.
unfoldable pub get_pml1_entry : (ℕ → ℕ) → ℕ → ℕ → (ℕ → ℕ) → Option ℕ
get_pml1_entry va table physical memory =
    let pml2 = memory (pml2_address table physical) in
    let pml1 = va (frame pml2 * page_size) in
    if ltb 0 (pml4_index physical)
    then none
    else if truthy (large_page pml2)
    then none
    else if not (truthy pml1)
    then none
    else some (pml1 + pml1_index physical * 8)

-- The entry, and `isLargePage`.
unfoldable pub get_pml1_or_pml2_entry : (ℕ → ℕ) → ℕ → ℕ → (ℕ → ℕ) → Option (ℕ × Bool)
get_pml1_or_pml2_entry va table physical memory =
    let pml2 = memory (pml2_address table physical) in
    let pml1 = va (frame pml2 * page_size) in
    if ltb 0 (pml4_index physical)
    then none
    else if truthy (large_page pml2)
    then some (pml2_address table physical, true)
    else if not (truthy pml1)
    then none
    else some (pml1 + pml1_index physical * 8, false)

-- The template of `SplitLargePage` for the entries of 4 KB.
abbrev pub pml1_template : ℕ → ℕ
pml1_template pml2 =
    set_suppress_ve (suppress_ve pml2)
      (set_ignore_pat (ignore_pat pml2) (set_memory_type (memory_type_of pml2) read_write_execute))

module _ (pa : ℕ → ℕ) where
  -- What stands before the loops on PML2; `page_table` is what is allocated.
  unfoldable pub identity_template : ℕ → (ℕ → ℕ) → ℕ → ℕ
  identity_template page_table memory =
      let cleared = stosq page_table 0 page_table_words memory in
      let first = set_frame (pa (pml3_of page_table) / page_size) (cleared page_table) in
      let rooted =
        put page_table (set_execute_access 1 (set_write_access 1 (set_read_access 1 first)))
          cleared in
      let pml3 = stosq (pml3_of page_table) read_write_execute 512 rooted in
      let linked =
        count_up 512
          (λ i m.
            put (pml3_of page_table + i * 8)
              (set_frame (pa (pml2_of page_table + i * 4096) / page_size)
                (m (pml3_of page_table + i * 8)))
              m)
          pml3 in
      stosq (pml2_of page_table) (set_large_page 1 read_write_execute) (512 * 512) linked

module _ (pa : ℕ → ℕ) (mtrr : MtrrMap) where
  -- One round of the loop of `SplitLargePage`: the frame of the entry, then its memory type.
  unfoldable pub split_round : ℕ → ℕ → ℕ → (ℕ → ℕ) → ℕ → ℕ
  split_round pml2 buffer i memory =
      let at = buffer + i * 8 in
      let framed =
        put at (set_frame (large_frame (memory pml2) * size_2_mb / page_size + i) (memory at))
          memory in
      put at (set_memory_type (get_memory_type mtrr (frame (framed at)) false) (framed at)) framed

  -- The stores of `SplitLargePage` on a page of 2 MB.
  unfoldable pub split_entry : ℕ → ℕ → (ℕ → ℕ) → ℕ → ℕ
  split_entry pml2 buffer memory =
      let cleared = put (buffer + 4096) pml2 (stosq buffer 0 dynamic_split_words memory) in
      let filled = stosq buffer (pml1_template (cleared pml2)) 512 cleared in
      let mapped = count_up 512 (split_round pml2 buffer) filled in
      put pml2 (set_frame (pa buffer / page_size) read_write_execute) mapped

  module _ {P : Type 0} (free : ℕ → AllocationType → P → P) where
    unfoldable pub split_large_page : ℕ → ℕ → ℕ → (ℕ → ℕ) × P → ((ℕ → ℕ) × P) × Bool
    split_large_page table buffer physical (memory, pool) =
        if not (truthy buffer)
        then ((memory, pool), false)
        else elim (get_pml2_entry table physical) [
          | none ↦ ((memory, pool), false)
          | some pml2 ↦
              if not (truthy (large_page (memory pml2)))
              then ((memory, free buffer split_2mb_paging_to_4kb_page pool), true)
              else ((split_entry pml2 buffer memory, pool), true)
        ]

    module _ (allocate : AllocationType → P → P × ℕ) where
      -- `table` is the member `eptPageTable`. Where it is NULL, `SplitLargePage` dereferences the entry
      -- that `GetPml2Entry` finds by it.
      unfoldable pub setup_pml2_entry : ℕ → ℕ → ℕ → (ℕ → ℕ) × P → ((ℕ → ℕ) × P) × SetupOutcome
      setup_pml2_entry table new_entry pfn (memory, pool) =
          let framed = put new_entry (set_large_frame pfn (memory new_entry)) memory in
          let typed : ℕ → ℕ → ℕ =
            λ type. put new_entry (set_memory_type type (framed new_entry)) framed in
          if is_valid_for_large_page mtrr pfn
          then ((typed (get_memory_type mtrr pfn true), pool), succeeds)
          else if pfn == 0
          then ((typed uncacheable, pool), succeeds)
          else let (pool', buffer) = allocate split_2mb_paging_to_4kb_page pool in
            let (s, split) = split_large_page table buffer (pfn * size_2_mb) (framed, pool') in
            if not (truthy buffer)
            then ((framed, pool'), fails)
            else if table == 0 && pml4_index (pfn * size_2_mb) == 0
            then ((framed, pool'), raises)
            else (s, setup_outcome_of split)

      unfoldable pub setup_pml2_entries : ℕ → ℕ → (ℕ → ℕ) × P → ((ℕ → ℕ) × P) × SetupOutcome
      setup_pml2_entries table page_table = for_each 512 (λ group. for_each 512 (λ i.
          setup_pml2_entry table (pml2_of page_table + (group * 512 + i) * 8) (group * 512 + i)))

      -- `contiguous` is what `MmAllocateContiguousMemory` answers, `free_contiguous` is
      -- `MmFreeContiguousMemory`.
      module _ (contiguous : P → P × ℕ) (free_contiguous : ℕ → P → P) where
        -- What follows the set-up of the entries.
        abbrev end_creation : SetupOutcome → ℕ → (ℕ → ℕ) × P → ((ℕ → ℕ) × P) × CreateOutcome
        end_creation succeeds page_table s = (s, created page_table)
        end_creation fails page_table (memory, pool) =
            ((memory, free_contiguous page_table pool), not_created)
        end_creation raises page_table s = (s, raised_in_set_up)

        unfoldable pub allocate_and_create_identity_page_table :
            ℕ → (ℕ → ℕ) × P → ((ℕ → ℕ) × P) × CreateOutcome
        allocate_and_create_identity_page_table table (memory, pool) =
            let (pool', page_table) = contiguous pool in
            let ((memory'', pool''), outcome) =
              setup_pml2_entries table page_table (identity_template pa page_table memory, pool') in
            if not (truthy page_table)
            then ((memory, pool'), not_created)
            else end_creation outcome page_table (memory'', pool'')

        abbrev end_initialization : CreateOutcome → InitializeOutcome
        end_initialization (created page_table) =
            let eptp = set_frame (pa page_table / page_size) (
              set_page_walk_length 3
                (set_enable_access_and_dirty_flags 0 (set_ept_memory_type write_back 0))) in
            initialized page_table eptp
        end_initialization not_created = refused
        end_initialization raised_in_set_up = raised

        unfoldable pub logical_processor_initialize :
            ℕ → (ℕ → ℕ) × P → ((ℕ → ℕ) × P) × InitializeOutcome
        logical_processor_initialize table s =
            let (s', outcome) = allocate_and_create_identity_page_table table s in
            (s', end_initialization outcome)
