-- ===== src/Ept/PageHook/Steps.antt =====
-- The way through `RootModePageHook` of NovaHypervisor/Ept.cpp to a new record.
use nova_hypervisor.Base.{
  ℕ, ◌/◌, ◌%◌, ◌≡◌, refl, Bool, true, false, not, ◌&&◌, truthy, bit_and, bit_and_low, bit_and_bit,
  arith, some, Bool-cases, inl, inr,
}
use nova_hypervisor.PoolManager.{AllocationType, split_2mb_paging_to_4kb_page, ept_hook_page}
use nova_hypervisor.Ept.Entry.{read_access, write_access, execute_access, frame, memory_type_of}
use nova_hypervisor.Ept.Mtrr.{MtrrMap}
use nova_hypervisor.Ept.Table.{split_large_page, get_pml1_entry}
use nova_hypervisor.Ept.Hooks.{EptState, put, page_align, set_pml1_and_invalidate_tlb}
use nova_hypervisor.Ept.PageHook.{
  is_hook_exists, insert_hook, split_and_hook, root_mode_page_hook, ept_page_write, ept_page_read,
  changed_entry_for,
}

-- The changed entry allows a read just when the permissions do, and never a write or an execution; the
-- rest of the entry is the one before.
pub changed_entry_for_lem :
    (entry permissions : ℕ)
    → (read_access (changed_entry_for entry permissions) ≡ permissions % 2)
      × (write_access (changed_entry_for entry permissions) ≡ 0)
      × (execute_access (changed_entry_for entry permissions) ≡ 0)
      × (changed_entry_for entry permissions / 8 ≡ entry / 8)
unfolding changed_entry_for
changed_entry_for_lem entry permissions =
    let r = bit_and_low 1 permissions in
    let w = bit_and_bit 1 permissions in
    let x = bit_and_bit 2 permissions in
    (omega (arith, r, w, x), omega (arith, r, w, x), omega (arith, r, w, x), omega (arith, r, w, x))

-- What an entry has above its access rights.
pub same_fields :
    (a b : ℕ) → a / 8 ≡ b / 8 → (frame a ≡ frame b) × (memory_type_of a ≡ memory_type_of b)
same_fields a b h = (omega (arith, h), omega (arith, h))

module _ {V P : Type 0} (pa va : ℕ → ℕ) (mtrr : MtrrMap) (free : ℕ → AllocationType → P → P)
    (allocate : AllocationType → P → P × ℕ) (table : ℕ) (is_launched : Bool)
    (target permissions buffer pml1 : ℕ) (pool1 : P) (e : EptState V P) (s : (ℕ → ℕ) × P) where
  -- What comes before a new hook is fine: `buffer` is allocated, `s` is the state after the split, and
  -- `pml1` the entry of the page.
  abbrev pub ReachesEntry : Type 0
  ReachesEntry =
      (e.is_on_vmx_root && not is_launched ≡ false)
      × (truthy (bit_and permissions ept_page_write)
            && not (truthy (bit_and permissions ept_page_read))
          ≡ false)
      × (is_hook_exists (page_align target) e ≡ false)
      × (truthy (pa (page_align target)) ≡ true)
      × (allocate split_2mb_paging_to_4kb_page e.pool ≡ (pool1, buffer))
      × (truthy buffer ≡ true)
      × (split_large_page pa mtrr free table buffer (pa (page_align target)) (e.memory, pool1)
          ≡ (s, true))
      × (get_pml1_entry va table (pa (page_align target)) s.0 ≡ some pml1)

  pub root_mode_page_hook-insert :
      ReachesEntry
      → root_mode_page_hook pa va mtrr free allocate table is_launched target permissions e
        ≡ insert_hook pa va mtrr free allocate table is_launched
            (page_align target)
            (pa (page_align target))
            buffer
            pml1
            permissions
            (record e { memory = s.0; pool = s.1 })
  unfolding root_mode_page_hook split_and_hook
  root_mode_page_hook-insert (early, fine, fresh, mapped, given, real, split, found) =
      let page = page_align target in
      let split_done : split_and_hook pa va mtrr free allocate table is_launched page (pa page)
            permissions e
          ≡ insert_hook pa va mtrr free allocate table is_launched page (pa page) buffer pml1
              permissions (record e { memory = s.0; pool = s.1 }) =
        rw (given, real, split, found, given, split) refl in
      rw (early, fine, fresh, mapped) split_done

-- With a record, the entry gets its changed word, whether the processor is launched or not.
pub insert_hook_memory :
    {V P : Type 0} (pa va : ℕ → ℕ) (mtrr : MtrrMap) (free : ℕ → AllocationType → P → P)
    (allocate : AllocationType → P → P × ℕ) (table : ℕ) (is_launched : Bool)
    (page physical buffer pml1 permissions at : ℕ) (pool2 : P) (e : EptState V P)
    → allocate ept_hook_page e.pool ≡ (pool2, at)
    → truthy at ≡ true
    → let r =
        insert_hook pa va mtrr free allocate table is_launched page physical buffer pml1 permissions
          e in
      (r.1 ≡ true)
      × (r.0.memory ≡ put pml1 (changed_entry_for (e.memory pml1) permissions) e.memory)
unfolding insert_hook set_pml1_and_invalidate_tlb
insert_hook_memory pa va mtrr free allocate table is_launched page physical buffer pml1 permissions
      at pool2 e given real =
    elim (Bool-cases is_launched) [
      | inl launched ↦ rw (given, real, launched) (refl, refl)
      | inr before ↦ rw (given, real, before) (refl, refl)
    ]
