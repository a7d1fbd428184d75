-- ===== src/Ept/Table/Processor.antt =====
-- `LogicalProcessorInitialize` of NovaHypervisor/Ept.cpp as a whole.
use nova_hypervisor.Base.{
  ℕ, ◌+◌, ◌*◌, ◌/◌, ◌%◌, ◌<◌, ◌≤◌, true, truthy, ◌≡◌, refl, ap, none, some, arith,
}
use nova_hypervisor.PoolManager.{AllocationType}
use nova_hypervisor.Ept.Entry.{set_frame}
use nova_hypervisor.Ept.Mtrr.{MtrrMap}
use nova_hypervisor.Ept.Table.{
  identity_template, setup_pml2_entries, allocate_and_create_identity_page_table,
  logical_processor_initialize, created, initialized,
}
use nova_hypervisor.Ept.Table.Walk.{walk}
use nova_hypervisor.Ept.Table.Identity.{large_type, AllLarge, setup_pml2_entries-Reached}
use nova_hypervisor.Ept.Table.Initialize.{Contiguous, template_pml2, walk_to_pml4, walk_absent}

module _ {P : Type 0} (pa va : ℕ → ℕ) (mtrr : MtrrMap) (free : ℕ → AllocationType → P → P)
    (allocate : AllocationType → P → P × ℕ) where
  -- If the map of the MTRRs lets every page of 2 MB but the first be mapped whole, and the system gives
  -- a contiguous table, `LogicalProcessorInitialize` succeeds and takes nothing from the pool. From its
  -- EPT pointer the processor translates each guest address below 512 GB to itself, with all accesses
  -- allowed and the memory type of its page of 2 MB, and no address above.
  pub logical_processor_initialize_lem :
      (contiguous : P → P × ℕ) (free_contiguous : ℕ → P → P) (table base page_table : ℕ)
      (memory : ℕ → ℕ) (pool pool' : P)
      → AllLarge mtrr
      → contiguous pool ≡ (pool', page_table)
      → (page_table ≡ 0 → ⊥)
      → base + 514 ≤ 68719476736
      → Contiguous pa va page_table base
      → let (s, made) =
          logical_processor_initialize pa mtrr free allocate contiguous free_contiguous table
            (memory, pool) in
        (made ≡ initialized page_table (base * 4096 + 30))
        × (s.1 ≡ pool')
        × ((guest : ℕ)
            → guest < 549755813888
            → walk va s.0 (base * 4096 + 30) guest
              ≡ some (record {
                address = guest;
                memory_type = large_type mtrr (guest / 2097152) % 8;
                rights = 7;
              }))
        × ((guest : ℕ)
            → 549755813888 ≤ guest
            → guest < 281474976710656
            → walk va s.0 (base * 4096 + 30) guest ≡ none)
  unfolding logical_processor_initialize allocate_and_create_identity_page_table
  logical_processor_initialize_lem contiguous free_contiguous table base page_table memory pool
        pool' large given real fits placed =
      let before = identity_template pa page_table memory in
      let (ok, reached) =
        setup_pml2_entries-Reached pa mtrr free allocate table 262144
          (λ k some_page low. large k some_page) page_table before pool' (omega arith)
          (template_pml2 pa va page_table base memory fits placed) (omega arith) in
      let s = (setup_pml2_entries pa mtrr free allocate table page_table (before, pool')).0 in
      let at_start : page_table ≡ page_table + 0 = omega arith in
      let root : pa page_table / 4096 ≡ base =
        omega (arith, ap pa at_start, (placed 0 (omega arith)).0) in
      let not_null : truthy page_table ≡ true = ground (arith, real) in
      let made : allocate_and_create_identity_page_table pa mtrr free allocate contiguous
            free_contiguous table (memory, pool)
          ≡ (s, created page_table) =
        rw (given, not_null, ok) refl in
      let eptp : set_frame base 30 ≡ base * 4096 + 30 = omega (arith, fits) in
      rw made (
        ap (initialized page_table) (rw (root, eptp) refl),
        reached.0,
        walk_to_pml4 pa va page_table base memory fits placed mtrr s.0 reached.1,
        walk_absent pa va page_table base memory fits placed mtrr s.0 reached.1,
      )
