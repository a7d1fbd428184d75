-- ===== src/Ept/PageHook.antt =====
-- `Ept::RootModePageHook` of NovaHypervisor/Ept.cpp: a hook is laid on the page of a function. `pa` is
-- what `MmGetPhysicalAddress` answers, `va` what `MmGetVirtualForPhysical` answers.
pub mod Records
pub mod Frame
pub mod Steps
pub mod Laws
pub mod Outcome
mod Tests
pub mod RoundTrip
use nova_hypervisor.Base.{
  ℕ, Bool, true, false, not, ◌&&◌, truthy, if◌then◌else◌, bit_and, ◌∷◌, none, some,
}
use nova_hypervisor.PoolManager.{AllocationType, split_2mb_paging_to_4kb_page, ept_hook_page}
use nova_hypervisor.Ept.Mtrr.{MtrrMap}
use nova_hypervisor.Ept.Entry.{set_read_access, set_write_access, set_execute_access}
use nova_hypervisor.Ept.Table.{split_large_page, get_pml1_entry}
use nova_hypervisor.Ept.Hooks.{
  EptState, HookedPageDetail, put, page_align, get_hooked_page, set_pml1_and_invalidate_tlb,
}

-- `EPT_PAGE_READ`, `EPT_PAGE_WRITE` and `EPT_PAGE_EXECUTE`.
abbrev pub ept_page_read : ℕ
ept_page_read = 1

abbrev pub ept_page_write : ℕ
ept_page_write = 2

abbrev pub ept_page_execute : ℕ
ept_page_execute = 4

-- `changedEntry`: an assignment to a bit field of width 1 keeps the low bit of what is assigned.
unfoldable pub changed_entry_for : ℕ → ℕ → ℕ
changed_entry_for entry permissions = set_execute_access (bit_and permissions ept_page_execute) (
    set_write_access (bit_and permissions ept_page_write)
      (set_read_access (bit_and permissions ept_page_read) entry))

unfoldable pub is_hook_exists : {V P : Type 0} → ℕ → EptState V P → Bool
is_hook_exists address e = elim (get_hooked_page (page_align address) e.hooked_pages) [
  | none ↦ false
  | some hook ↦ true
]

module _ {V P : Type 0} (pa va : ℕ → ℕ) (mtrr : MtrrMap) (free : ℕ → AllocationType → P → P)
    (allocate : AllocationType → P → P × ℕ) (table : ℕ) (is_launched : Bool) where
  -- From the entry of 4 KB on: the record, the list, and the entry itself.
  unfoldable pub insert_hook : ℕ → ℕ → ℕ → ℕ → ℕ → EptState V P → EptState V P × Bool
  insert_hook page physical buffer pml1 permissions e =
      let original = e.memory pml1 in
      let changed = changed_entry_for original permissions in
      let (pool', at) = allocate ept_hook_page e.pool in
      let hook : HookedPageDetail = record {
        at = at;
        virtual_address = page;
        physical_address = physical;
        physical_base_address = page_align physical;
        entry_address = pml1;
        original_entry = original;
        changed_entry = changed;
      } in
      let hooked : EptState V P = record e { pool = pool'; hooked_pages = hook ∷ e.hooked_pages } in
      if not (truthy at)
      then (record e { pool = free buffer split_2mb_paging_to_4kb_page pool' }, false)
      else if is_launched
      then (set_pml1_and_invalidate_tlb pml1 changed hooked, true)
      else (record hooked { memory = put pml1 changed e.memory }, true)

  -- From the allocation of the buffer for the split on.
  unfoldable pub split_and_hook : ℕ → ℕ → ℕ → EptState V P → EptState V P × Bool
  split_and_hook page physical permissions e =
      let (pool', buffer) = allocate split_2mb_paging_to_4kb_page e.pool in
      let (s, split) = split_large_page pa mtrr free table buffer physical (e.memory, pool') in
      let e' : EptState V P = record e { memory = s.0; pool = s.1 } in
      let give_up : EptState V P = record e' {
        pool = free buffer split_2mb_paging_to_4kb_page s.1;
      } in
      if not (truthy buffer)
      then (record e { pool = pool' }, false)
      else if not split
      then (give_up, false)
      else elim (get_pml1_entry va table physical s.0) [
        | none ↦ (give_up, false)
        | some pml1 ↦ insert_hook page physical buffer pml1 permissions e'
      ]

  unfoldable pub root_mode_page_hook : ℕ → ℕ → EptState V P → EptState V P × Bool
  root_mode_page_hook target permissions e =
      let page = page_align target in
      if e.is_on_vmx_root && not is_launched
      then (e, false)
      else if truthy (bit_and permissions ept_page_write)
          && not (truthy (bit_and permissions ept_page_read))
      then (e, false)
      else if is_hook_exists page e
      then (e, true)
      else if not (truthy (pa page))
      then (e, false)
      else split_and_hook page (pa page) permissions e
