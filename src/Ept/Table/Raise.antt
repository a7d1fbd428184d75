-- ===== src/Ept/Table/Raise.antt =====
-- `LogicalProcessorInitialize` of NovaHypervisor/Ept.cpp where a page of 2 MB needs a split, while the
-- member `eptPageTable` still is NULL.
mod Tests
use nova_hypervisor.Base.{
  ℕ, ◌+◌, ◌*◌, ◌/◌, ◌%◌, ◌<◌, ◌≤◌, true, false, ◌==◌, truthy, ◌≡◌, ◌∙◌, refl, ap, arith, not,
}
use nova_hypervisor.PoolManager.{AllocationType, split_2mb_paging_to_4kb_page}
use nova_hypervisor.Ept.Entry.{set_large_frame, pml4_index, pml4_index_lem}
use nova_hypervisor.Ept.Mtrr.{MtrrMap, is_valid_for_large_page}
use nova_hypervisor.Ept.Hooks.{put, put_same}
use nova_hypervisor.Ept.Table.{
  identity_template, pml2_of, setup_pml2_entry, setup_pml2_entries, raises, raised,
  raised_in_set_up, allocate_and_create_identity_page_table, logical_processor_initialize,
}
use nova_hypervisor.Ept.Table.Fill.{for_each_raises}
use nova_hypervisor.Ept.Table.Identity.{
  Reached, setup_group, Reached-at, still_template, round-Reached, group-Reached, start-Reached,
}
use nova_hypervisor.Ept.Table.Initialize.{Contiguous, template_pml2}

module _ {P : Type 0} (pa va : ℕ → ℕ) (mtrr : MtrrMap) (free : ℕ → AllocationType → P → P)
    (allocate : AllocationType → P → P × ℕ) (k : ℕ) (some_page : 0 < k) (low : k < 262144)
    (large : (j : ℕ) → 0 < j → j < k → is_valid_for_large_page mtrr j ≡ true)
    (small : is_valid_for_large_page mtrr k ≡ false) where
  fits : k ≤ 262144
  fits = omega (arith, low)

  setup_pml2_entry_raises :
      (at buffer : ℕ) (memory : ℕ → ℕ) (pool pool' : P)
      → allocate split_2mb_paging_to_4kb_page pool ≡ (pool', buffer)
      → truthy buffer ≡ true
      → setup_pml2_entry pa mtrr free allocate 0 at k (memory, pool)
        ≡ ((put at (set_large_frame k (memory at)) memory, pool'), raises)
  unfolding setup_pml2_entry
  setup_pml2_entry_raises at buffer memory pool pool' given real =
      let not_first : (k == 0) ≡ false = ground (arith, some_page) in
      let in_first : (pml4_index (k * 2097152) == 0) ≡ true =
        ground (arith, pml4_index_lem (k * 2097152), low) in
      rw (small, not_first, given, real, in_first) refl

  module _ (page_table : ℕ) (before : ℕ → ℕ) (pool pool' : P) (buffer : ℕ)
      (given : allocate split_2mb_paging_to_4kb_page pool ≡ (pool', buffer))
      (real : truthy buffer ≡ true)
      (template : (j : ℕ) → j < 262144 → before (pml2_of page_table + j * 8) ≡ 135) where
    -- The buffer is taken, and the entry of the page has its frame only.
    abbrev Taken : (ℕ → ℕ) × P → Type 0
    Taken s = (s.1 ≡ pool') × (s.0 (pml2_of page_table + k * 8) ≡ set_large_frame k 135)

    abbrev Begun : ℕ → (ℕ → ℕ) × P → Type 0
    Begun = Reached pa mtrr free allocate 0 k large page_table before pool fits template

    -- The round of the page.
    own_round :
        (t : (ℕ → ℕ) × P)
        → Begun (k / 512 * 512 + k % 512) t
        → let at = k / 512 * 512 + k % 512 in
          let r = setup_pml2_entry pa mtrr free allocate 0 (pml2_of page_table + at * 8) at t in
          (r.1 ≡ raises) × Taken r.0
    own_round (memory, pool1) r =
        let own : k / 512 * 512 + k % 512 ≡ k = omega arith in
        let here = pml2_of page_table + k * 8 in
        let was =
          still_template pa mtrr free allocate 0 k large page_table before pool fits template
            (k / 512 * 512 + k % 512) (memory, pool1) (omega (arith, low)) r in
        let taking : allocate split_2mb_paging_to_4kb_page pool1 ≡ (pool', buffer) =
          ap (allocate split_2mb_paging_to_4kb_page) r.0 ∙ given in
        rw (own, setup_pml2_entry_raises here buffer memory pool1 pool' taking real)
          (
            refl,
            (
              refl,
              put_same here (set_large_frame k (memory here)) memory
                  ∙ ap (set_large_frame k) (rw own at was),
            ),
          )

    -- The group of the page.
    own_group :
        (s : (ℕ → ℕ) × P)
        → Begun (k / 512 * 512) s
        → let r =
            setup_group pa mtrr free allocate 0 k large page_table before pool fits template
              (k / 512)
              s in
          (r.1 ≡ raises) × Taken r.0
    own_group s r =
        for_each_raises
          (λ i.
            setup_pml2_entry pa mtrr free allocate 0 (pml2_of page_table + (k / 512 * 512 + i) * 8)
              (k / 512 * 512 + i))
          (λ i. Begun (k / 512 * 512 + i)) Taken (k % 512) 512 s
          (Reached-at pa mtrr free allocate 0 k large page_table before pool fits template
            (k / 512 * 512) (k / 512 * 512 + 0) s (omega arith) r)
          (λ i t less u.
            round-Reached pa mtrr free allocate 0 k large page_table before pool fits template
              (k / 512) i t (omega (arith, less)) u)
          own_round (omega arith)

    pub setup_pml2_entries_raises :
        let r = setup_pml2_entries pa mtrr free allocate 0 page_table (before, pool) in
        (r.1 ≡ raises) × Taken r.0
    unfolding setup_pml2_entries
    setup_pml2_entries_raises =
        for_each_raises
          (setup_group pa mtrr free allocate 0 k large page_table before pool fits template)
          (λ g. Begun (g * 512)) Taken (k / 512) 512 (before, pool)
          (start-Reached pa mtrr free allocate 0 k large page_table before pool fits template)
          (λ g s less r.
            group-Reached pa mtrr free allocate 0 k large page_table before pool fits template g s
              (omega (arith, less)) r)
          own_group (omega (arith, low))

  -- `LogicalProcessorInitialize` is called while `eptPageTable` is NULL. If the page `k` of 2 MB is the
  -- first but page 0 that the map of the MTRRs does not let be mapped whole, the system gives a
  -- contiguous table and the pool a buffer, it ends in the exception of a NULL dereference: the new table
  -- and the buffer are taken and not given back, and the page's entry has its frame but no memory type.
  pub logical_processor_initialize_raises :
      (contiguous : P → P × ℕ) (free_contiguous : ℕ → P → P) (base page_table buffer : ℕ)
      (memory : ℕ → ℕ) (pool pool' pool'' : P)
      → contiguous pool ≡ (pool', page_table)
      → truthy page_table ≡ true
      → allocate split_2mb_paging_to_4kb_page pool' ≡ (pool'', buffer)
      → truthy buffer ≡ true
      → base + 514 ≤ 68719476736
      → Contiguous pa va page_table base
      → let (s, made) =
          logical_processor_initialize pa mtrr free allocate contiguous free_contiguous 0
            (memory, pool) in
        (made ≡ raised)
        × (s.1 ≡ pool'')
        × (s.0 (pml2_of page_table + k * 8) ≡ set_large_frame k 135)
  unfolding logical_processor_initialize allocate_and_create_identity_page_table
  logical_processor_initialize_raises contiguous free_contiguous base page_table buffer memory pool
        pool' pool'' given not_null taking real room placed =
      let before = identity_template pa page_table memory in
      let (ended, taken) =
        setup_pml2_entries_raises page_table before pool' pool'' buffer taking real
          (template_pml2 pa va page_table base memory room placed) in
      let s = (setup_pml2_entries pa mtrr free allocate 0 page_table (before, pool')).0 in
      let creating : allocate_and_create_identity_page_table pa mtrr free allocate contiguous
            free_contiguous 0 (memory, pool)
          ≡ (s, raised_in_set_up) =
        rw (given, not_null, ended) refl in
      rw creating (refl, taken.0, taken.1)
