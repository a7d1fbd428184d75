-- ===== src/Ept/PageHook/Outcome.antt =====
-- What `RootModePageHook` of NovaHypervisor/Ept.cpp leaves on a page of 2 MB: with the hook laid, and
-- with no record left for it.
use nova_hypervisor.Base.{
  ℕ, ◌+◌, ◌*◌, ◌/◌, ◌%◌, ◌≡◌, refl, ◌∙◌, ap, Bool, true, false, ◌==◌, truthy, if◌then◌else◌, none,
  some, arith, Bool-cases, inl, inr,
}
use nova_hypervisor.PoolManager.{AllocationType, split_2mb_paging_to_4kb_page, ept_hook_page}
use nova_hypervisor.Ept.Mtrr.{MtrrMap, get_memory_type}
use nova_hypervisor.Ept.Entry.{field, frame, large_frame, large_page}
use nova_hypervisor.Ept.Table.{split_entry, pml2_address}
use nova_hypervisor.Ept.Table.Walk.{Translation, walk_pml2}
use nova_hypervisor.Ept.Table.Split.{split_pointer}
use nova_hypervisor.Ept.Hooks.{EptState, page_align}
use nova_hypervisor.Ept.PageHook.{insert_hook, root_mode_page_hook}
use nova_hypervisor.Ept.PageHook.Steps.{root_mode_page_hook-insert}
use nova_hypervisor.Ept.PageHook.Laws.{
  Splits, hooked_entry, reaches, hooked, walk_elsewhere, walk_here,
}

module _ {V P : Type 0} (pa va : ℕ → ℕ) (mtrr : MtrrMap) (free : ℕ → AllocationType → P → P)
    (allocate : AllocationType → P → P × ℕ) (table : ℕ) (is_launched : Bool)
    (target permissions buffer : ℕ) (pool1 pool2 : P) (e : EptState V P) (f : ℕ)
    (splits : Splits pa va mtrr free allocate table is_launched target permissions buffer pool1 e
      f) where
  -- For a page that `Splits` is true of, with a record for it, the hook is laid. The processor then
  -- translates each guest address of the page of 2 MB to the same address, with the memory type of its
  -- page of 4 KB. Outside the hooked page of 4 KB every access is allowed; in it nothing but a read, and
  -- that if the permissions have it.
  pub root_mode_page_hook_walk :
      (at : ℕ)
      → allocate ept_hook_page pool1 ≡ (pool2, at)
      → truthy at ≡ true
      → let r =
          root_mode_page_hook pa va mtrr free allocate table is_launched target permissions e in
        let entry = pml2_address table (pa (page_align target)) in
        let big = large_frame (e.memory entry) in
        let translated : ℕ → ℕ → Translation = λ guest rights. record {
          address = big * 2097152 + guest % 2097152;
          memory_type = get_memory_type mtrr (big * 512 + guest / 4096 % 512) false % 8;
          rights = rights;
        } in
        (r.1 ≡ true)
        × ((guest : ℕ)
            → walk_pml2 va r.0.memory entry guest ≡ (
                if guest / 4096 % 512 == pa (page_align target) / 4096 % 512
                then if permissions % 2 == 0 then none else some (translated guest 1)
                else some (translated guest 7)))
  root_mode_page_hook_walk at given real =
      let (answer, memory) =
        hooked pa va mtrr free allocate table is_launched target permissions buffer pool1 e f splits
          at pool2 given real in
      (
        answer,
        λ guest.
            rw memory (elim (Bool-cases (field 12 9 guest == field 12 9 (pa (page_align target)))) [
              | inl here ↦ rw here (
                  walk_here pa va mtrr free allocate table is_launched target permissions buffer
                    pool1 e f splits guest here)
              | inr elsewhere ↦ rw elsewhere (
                  walk_elsewhere pa va mtrr free allocate table is_launched target permissions
                    buffer pool1 e f splits guest elsewhere)
            ]),
      )

  -- For a page that is not hooked yet and lies in a page of 2 MB below 512 GB that is not split, with
  -- fitting permissions and a buffer apart from the entry, but with no record left for the hook, the call
  -- answers false and gives the buffer back to the pool; but the page is split by then, and the entry of
  -- the page of 2 MB goes on pointing to the buffer.
  pub root_mode_page_hook_dangling :
      allocate ept_hook_page pool1 ≡ (pool2, 0)
      → let r =
          root_mode_page_hook pa va mtrr free allocate table is_launched target permissions e in
        let entry = pml2_address table (pa (page_align target)) in
        (r.1 ≡ false)
        × (r.0.pool ≡ free buffer split_2mb_paging_to_4kb_page pool2)
        × (large_page (r.0.memory entry) ≡ 0)
        × (va (frame (r.0.memory entry) * 4096) ≡ buffer)
  unfolding insert_hook
  root_mode_page_hook_dangling given =
      let (early, fine, fresh, mapped, low, given', real, large, apart, bound, placed, back) =
        splits in
      let entry = pml2_address table (pa (page_align target)) in
      let pointer : split_entry pa mtrr entry buffer e.memory entry ≡ f * 4096 + 7 =
        split_pointer pa mtrr entry buffer e.memory apart ∙ omega (arith, placed, bound) in
      let at_buffer : va (frame (f * 4096 + 7) * 4096) ≡ buffer =
        ap va (omega (arith, bound)) ∙ back 0 (omega arith) ∙ omega arith in
      let not_large : large_page (f * 4096 + 7) ≡ 0 = omega arith in
      rw
        (
          root_mode_page_hook-insert pa va mtrr free allocate table is_launched target permissions
              buffer
              (hooked_entry pa va mtrr free allocate table is_launched target permissions buffer
                pool1 e f splits)
              pool1 e (split_entry pa mtrr entry buffer e.memory, pool1)
              (reaches pa va mtrr free allocate table is_launched target permissions buffer pool1 e
                f splits),
          given,
        )
        (refl, refl, rw (pointer, not_large) refl, rw (pointer, at_buffer) refl)
