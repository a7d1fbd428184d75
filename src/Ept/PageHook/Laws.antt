-- ===== src/Ept/PageHook/Laws.antt =====
-- The walk through a page of 2 MB in which `RootModePageHook` of NovaHypervisor/Ept.cpp lays a hook.
use nova_hypervisor.Base.{
  ℕ, ◌+◌, ◌*◌, ◌/◌, ◌%◌, ◌<◌, ◌≡◌, refl, sym, ◌∙◌, ap, Bool, true, false, not, ◌&&◌, ◌==◌, ltb,
  truthy, if◌then◌else◌, bit_and, none, some, arith, Bool-cases, inl, inr,
}
use nova_hypervisor.PoolManager.{AllocationType, split_2mb_paging_to_4kb_page, ept_hook_page}
use nova_hypervisor.Ept.Mtrr.{MtrrMap, get_memory_type}
use nova_hypervisor.Ept.Entry.{
  frame, large_frame, large_page, memory_type_of, field, pml1_index_lem, pml4_index, pml4_index_lem,
}
use nova_hypervisor.Ept.Table.{split_large_page, split_entry, get_pml1_entry, pml2_address}
use nova_hypervisor.Ept.Table.Fill.{Outside, put_other}
use nova_hypervisor.Ept.Table.Walk.{
  Translation, walk_pml1, walk_pml2, walk_pml2_below, walk_pml1_leaf, restrict, rights_of,
}
use nova_hypervisor.Ept.Table.Split.{
  get_pml2_entry_below, split_pointer, split_small, small_entry, frame_small, rights_small,
  type_small,
}
use nova_hypervisor.Ept.Hooks.{EptState, put, put_same, page_align}
use nova_hypervisor.Ept.PageHook.{
  is_hook_exists, root_mode_page_hook, ept_page_write, ept_page_read, changed_entry_for,
}
use nova_hypervisor.Ept.PageHook.Steps.{
  changed_entry_for_lem, same_fields, ReachesEntry, root_mode_page_hook-insert, insert_hook_memory,
}

module _ {V P : Type 0} (pa va : ℕ → ℕ) (mtrr : MtrrMap) (free : ℕ → AllocationType → P → P)
    (allocate : AllocationType → P → P × ℕ) (table : ℕ) (is_launched : Bool)
    (target permissions buffer : ℕ) (pool1 : P) (e : EptState V P) where
  abbrev pub physical : ℕ
  physical = pa (page_align target)

  abbrev pub entry_at : ℕ
  entry_at = pml2_address table physical

  -- The page of the target is not hooked yet and lies in a page of 2 MB below 512 GB, and the pool
  -- gives a buffer, which is the physical frame `f`, apart from the entry of that page.
  abbrev pub Splits : ℕ → Type 0
  Splits f =
      (e.is_on_vmx_root && not is_launched ≡ false)
      × (truthy (bit_and permissions ept_page_write)
            && not (truthy (bit_and permissions ept_page_read))
          ≡ false)
      × (is_hook_exists (page_align target) e ≡ false)
      × (truthy physical ≡ true)
      × (physical < 549755813888)
      × (allocate split_2mb_paging_to_4kb_page e.pool ≡ (pool1, buffer))
      × (truthy buffer ≡ true)
      × (large_page (e.memory entry_at) ≡ 1)
      × Outside buffer 1024 entry_at
      × (f < 68719476736)
      × (pa buffer ≡ f * 4096)
      × ((k : ℕ) → k < 4096 → va (f * 4096 + k) ≡ buffer + k)

  module _ (f : ℕ) (splits : Splits f) where
    abbrev pub after : ℕ → ℕ
    after = split_entry pa mtrr entry_at buffer e.memory

    abbrev pub hooked_entry : ℕ
    hooked_entry = buffer + field 12 9 physical * 8

    pub reaches :
        ReachesEntry pa va mtrr free allocate table is_launched target permissions buffer
          hooked_entry pool1 e
          (after, pool1)
    unfolding split_large_page get_pml1_entry
    reaches =
        let (early, fine, fresh, mapped, low, given, real, large, apart, bound, placed, back) =
          splits in
        let pointer : after entry_at ≡ f * 4096 + 7 =
          split_pointer pa mtrr entry_at buffer e.memory apart ∙ omega (arith, placed, bound) in
        let at_buffer : va (frame (f * 4096 + 7) * 4096) ≡ buffer =
          ap va (omega (arith, bound)) ∙ back 0 (omega arith) ∙ omega arith in
        let not_large : large_page (f * 4096 + 7) ≡ 0 = omega arith in
        let low_index : ltb 0 (pml4_index physical) ≡ false =
          ground (arith, pml4_index_lem physical, low) in
        (
          early,
          fine,
          fresh,
          mapped,
          given,
          real,
          rw (real, get_pml2_entry_below table physical low, large) refl,
          rw (low_index, pointer, not_large, at_buffer, real, pml1_index_lem physical) refl,
        )

    -- The result once the record is allocated, in its memory.
    pub hooked :
        (at : ℕ) (pool2 : P)
        → allocate ept_hook_page pool1 ≡ (pool2, at)
        → truthy at ≡ true
        → let r =
            root_mode_page_hook pa va mtrr free allocate table is_launched target permissions e in
          (r.1 ≡ true)
          × (r.0.memory
              ≡ put hooked_entry (changed_entry_for (after hooked_entry) permissions) after)
    hooked at pool2 given real =
        rw
          (root_mode_page_hook-insert pa va mtrr free allocate table is_launched target permissions
            buffer hooked_entry pool1 e (after, pool1) reaches)
          (insert_hook_memory pa va mtrr free allocate table is_launched (page_align target)
            physical buffer hooked_entry permissions at pool2
            (record e { memory = after; pool = pool1 }) given real)

    -- The walk through the page once its entry is hooked.
    abbrev hooked_memory : ℕ → ℕ
    hooked_memory = put hooked_entry (changed_entry_for (after hooked_entry) permissions) after

    -- The translation of a guest address in the page of 2 MB with the given rights.
    abbrev pub kept : ℕ → ℕ → Translation
    kept guest rights = record {
      address = large_frame (e.memory entry_at) * 2097152 + guest % 2097152;
      memory_type =
          get_memory_type mtrr (large_frame (e.memory entry_at) * 512 + guest / 4096 % 512) false
          % 8;
      rights = rights;
    }

    -- The entry of 4 KB that the split makes for a guest address.
    abbrev small : ℕ → ℕ
    small guest = small_entry mtrr (e.memory entry_at) (field 12 9 guest)

    apart_from : Outside buffer 1024 entry_at
    apart_from = splits.8

    after-small : (guest : ℕ) → after (buffer + field 12 9 guest * 8) ≡ small guest
    after-small guest =
        split_small pa mtrr entry_at buffer e.memory apart_from (field 12 9 guest) (omega arith)

    walk_hooked :
        (guest : ℕ)
        → walk_pml2 va hooked_memory entry_at guest
          ≡ restrict 7 (walk_pml1 va hooked_memory (buffer + field 12 9 guest * 8) guest)
    walk_hooked guest =
        let (early, fine, fresh, mapped, low, given, real, large, apart, bound, placed, back) =
          splits in
        let other : (entry_at == hooked_entry) ≡ false = ground (arith, apart) in
        let here : hooked_memory entry_at ≡ f * 4096 + 7 =
          put_other hooked_entry (changed_entry_for (after hooked_entry) permissions) entry_at after
            other
          ∙ split_pointer pa mtrr entry_at buffer e.memory apart
          ∙ omega (arith, placed, bound) in
        let next : va (frame (f * 4096 + 7) * 4096 + field 12 9 guest * 8)
            ≡ buffer + field 12 9 guest * 8 =
          ap va (omega (arith, bound)) ∙ back (field 12 9 guest * 8) (omega arith) in
        walk_pml2_below va hooked_memory entry_at (f * 4096 + 7) (buffer + field 12 9 guest * 8)
          guest here (omega arith) (omega arith) next

    page_kept :
        (guest : ℕ)
        → frame (small guest) * 4096 + guest % 4096
          ≡ large_frame (e.memory entry_at) * 2097152 + guest % 2097152
    page_kept guest =
        let i = field 12 9 guest in
        let w = e.memory entry_at in
        rw (frame_small w i (get_memory_type mtrr (large_frame w * 512 + i) false) (omega arith))
          (omega arith)

    type_kept :
        (guest : ℕ)
        → memory_type_of (small guest)
          ≡ get_memory_type mtrr (large_frame (e.memory entry_at) * 512 + guest / 4096 % 512) false
            % 8
    type_kept guest =
        let i = field 12 9 guest in
        let w = e.memory entry_at in
        type_small w i (get_memory_type mtrr (large_frame w * 512 + i) false)

    rights_kept : (guest : ℕ) → rights_of (small guest) ≡ 7
    rights_kept guest =
        let i = field 12 9 guest in
        let w = e.memory entry_at in
        rights_small w i (get_memory_type mtrr (large_frame w * 512 + i) false)

    pub walk_elsewhere :
        (guest : ℕ)
        → (field 12 9 guest == field 12 9 physical) ≡ false
        → walk_pml2 va hooked_memory entry_at guest ≡ some (kept guest 7)
    walk_elsewhere guest other =
        let at = buffer + field 12 9 guest * 8 in
        let apart : (at == hooked_entry) ≡ false = ground (arith, other) in
        let here : hooked_memory at ≡ small guest =
          put_other hooked_entry (changed_entry_for (after hooked_entry) permissions) at after apart
          ∙ after-small guest in
        let leaf : walk_pml1 va hooked_memory at guest ≡ some (kept guest 7) =
          walk_pml1_leaf va hooked_memory at (small guest) 0 guest here (rights_kept guest)
          ∙ rw (page_kept guest, type_kept guest) refl in
        walk_hooked guest ∙ ap (restrict 7) leaf

    pub walk_here :
        (guest : ℕ)
        → (field 12 9 guest == field 12 9 physical) ≡ true
        → walk_pml2 va hooked_memory entry_at guest
          ≡ (if permissions % 2 == 0 then none else some (kept guest 1))
    walk_here guest same =
        let at = buffer + field 12 9 guest * 8 in
        let word = changed_entry_for (small guest) permissions in
        let (read, write, execute, rest) = changed_entry_for_lem (small guest) permissions in
        let index : hooked_entry ≡ at = ground (arith, same) in
        let here : hooked_memory at ≡ word =
          ap hooked_memory (sym index)
          ∙ put_same hooked_entry (changed_entry_for (after hooked_entry) permissions) after
          ∙ ap (λ (a : ℕ). changed_entry_for (after a) permissions) index
          ∙ ap (λ (w : ℕ). changed_entry_for w permissions) (after-small guest) in
        let rights : rights_of word ≡ permissions % 2 = omega (arith, read, write, execute) in
        let same_frame : frame word ≡ frame (small guest) =
          (same_fields word (small guest) rest).0 in
        let same_type : memory_type_of word ≡ memory_type_of (small guest) =
          (same_fields word (small guest) rest).1 in
        walk_hooked guest ∙ elim (Bool-cases (permissions % 2 == 0)) [
          | inl none_allowed ↦ rw (here, rights, none_allowed) refl
          | inr allowed ↦
              let one : permissions % 2 ≡ 1 = ground (arith, allowed) in
              rw (here, rights, one, same_frame, same_type, page_kept guest, type_kept guest) refl
        ]
