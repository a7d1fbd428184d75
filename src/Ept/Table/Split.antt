-- ===== src/Ept/Table/Split.antt =====
-- `SplitLargePage` of NovaHypervisor/Ept.cpp against the processor's walk.
use nova_hypervisor.Base.{
  ℕ, ◌+◌, ◌*◌, ◌/◌, ◌%◌, ◌<◌, true, false, ◌==◌, ltb, truthy, ◌≡◌, ◌∙◌, refl, ap, some, arith,
  ==_refl,
}
use nova_hypervisor.PoolManager.{AllocationType}
use nova_hypervisor.Ept.Entry.{
  set_memory_type, memory_type_of, set_frame, frame, large_frame, large_page, field, pml4_index,
  pml4_index_lem,
}
use nova_hypervisor.Ept.Mtrr.{MtrrMap, get_memory_type}
use nova_hypervisor.Ept.Hooks.{put, put_same}
use nova_hypervisor.Ept.Table.{
  count_up, stosq, pml1_template, split_round, split_entry, split_large_page, pml2_address,
  get_pml2_entry, read_write_execute,
}
use nova_hypervisor.Ept.Table.Fill.{
  Outside, Filled, Same, put_other, put_twice, count_up-Filled, stosq-Filled,
}
use nova_hypervisor.Ept.Table.Walk.{
  Translation, walk_pml1, walk_pml2, rights_of, walk_pml1_leaf, walk_pml2_pointer,
}

-- The entry of 4 KB that the page with the entry `w` gets at `i`.
abbrev pub small_entry : MtrrMap → ℕ → ℕ → ℕ
small_entry mtrr w i =
    set_memory_type (get_memory_type mtrr (large_frame w * 512 + i) false)
      (set_frame (large_frame w * 512 + i) (pml1_template w))

pub frame_small :
    (w i type : ℕ)
    → i < 512
    → frame (set_memory_type type (set_frame (large_frame w * 512 + i) (pml1_template w)))
      ≡ large_frame w * 512 + i
frame_small w i type h = omega (arith, h)

pub rights_small :
    (w i type : ℕ)
    → rights_of (set_memory_type type (set_frame (large_frame w * 512 + i) (pml1_template w))) ≡ 7
rights_small w i type = omega arith

pub type_small :
    (w i type : ℕ)
    → memory_type_of (set_memory_type type (set_frame (large_frame w * 512 + i) (pml1_template w)))
      ≡ type % 8
type_small w i type = omega arith

module _ (pa : ℕ → ℕ) (mtrr : MtrrMap) (pml2 buffer : ℕ) (memory : ℕ → ℕ)
    (apart : Outside buffer 1024 pml2) where
  abbrev cleared : ℕ → ℕ
  cleared = put (buffer + 4096) pml2 (stosq buffer 0 1024 memory)

  abbrev filled : ℕ → ℕ
  filled = stosq buffer (pml1_template (cleared pml2)) 512 cleared

  cleared-Outside : (b : ℕ) → Outside buffer 1024 b → cleared b ≡ memory b
  cleared-Outside b h =
      let far : (b == buffer + 4096) ≡ false = ground (arith, h) in
      put_other (buffer + 4096) pml2 b (stosq buffer 0 1024 memory) far
      ∙ (stosq-Filled buffer 0 1024 memory).1 b h

  filled-Outside : (b : ℕ) → Outside buffer 1024 b → filled b ≡ memory b
  filled-Outside b h =
      let near : Outside buffer 512 b = ground (arith, h) in
      (stosq-Filled buffer (pml1_template (cleared pml2)) 512 cleared).1 b near
      ∙ cleared-Outside b h

  filled_inside : (i : ℕ) → i < 512 → filled (buffer + i * 8) ≡ pml1_template (memory pml2)
  filled_inside i h =
      (stosq-Filled buffer (pml1_template (cleared pml2)) 512 cleared).0 i h
      ∙ ap pml1_template (cleared-Outside pml2 apart)

  abbrev small : ℕ → ℕ
  small = small_entry mtrr (memory pml2)

  split_round_lem :
      (i : ℕ) (m : ℕ → ℕ)
      → i < 512
      → Filled buffer i small filled m
      → Same (split_round pa mtrr pml2 buffer i m) (put (buffer + i * 8) (small i) m)
  unfolding split_round
  split_round_lem i m h (inside, outside) b =
      let at = buffer + i * 8 in
      let w = memory pml2 in
      let pml2_same : m pml2 ≡ w =
        outside pml2 (ground (arith, apart, h)) ∙ filled-Outside pml2 apart in
      let entry_same : m at ≡ pml1_template w = outside at (ground arith) ∙ filled_inside i h in
      let pfn : large_frame w * 2097152 / 4096 + i ≡ large_frame w * 512 + i = omega arith in
      let read_back : frame (set_frame (large_frame w * 512 + i) (pml1_template w))
          ≡ large_frame w * 512 + i =
        omega (arith, h) in
      rw (pml2_same, entry_same, pfn, ==_refl at, read_back)
        (put_twice at (small i) (set_frame (large_frame w * 512 + i) (pml1_template w)) m b)

  -- The loop fills PML1 with the entries of 4 KB.
  mapped-Filled :
      Filled buffer 512 small filled (count_up 512 (split_round pa mtrr pml2 buffer) filled)
  mapped-Filled =
      count_up-Filled buffer 512 small filled (split_round pa mtrr pml2 buffer) split_round_lem

  pub split-Outside :
      (b : ℕ)
      → (b == pml2) ≡ false
      → Outside buffer 1024 b
      → split_entry pa mtrr pml2 buffer memory b ≡ memory b
  unfolding split_entry
  split-Outside b off h =
      let near : Outside buffer 512 b = ground (arith, h) in
      put_other pml2 (set_frame (pa buffer / 4096) read_write_execute) b
        (count_up 512 (split_round pa mtrr pml2 buffer) filled) off
      ∙ mapped-Filled.1 b near
      ∙ filled-Outside b h

  pub split_pointer :
      split_entry pa mtrr pml2 buffer memory pml2 ≡ set_frame (pa buffer / 4096) read_write_execute
  unfolding split_entry
  split_pointer =
      put_same pml2 (set_frame (pa buffer / 4096) read_write_execute)
        (count_up 512 (split_round pa mtrr pml2 buffer) filled)

  pub split_small :
      (i : ℕ) → i < 512 → split_entry pa mtrr pml2 buffer memory (buffer + i * 8) ≡ small i
  unfolding split_entry
  split_small i h =
      let off : (buffer + i * 8 == pml2) ≡ false = ground (arith, apart, h) in
      put_other pml2 (set_frame (pa buffer / 4096) read_write_execute) (buffer + i * 8)
        (count_up 512 (split_round pa mtrr pml2 buffer) filled) off
      ∙ mapped-Filled.0 i h

  -- The frame that holds PML1, and the memory at it.
  module _ (va : ℕ → ℕ) (f : ℕ) (bound : f < 68719476736) (placed : pa buffer ≡ f * 4096)
      (back : (k : ℕ) → k < 4096 → va (f * 4096 + k) ≡ buffer + k) where
    split_walk :
        (guest : ℕ)
        → walk_pml2 va (split_entry pa mtrr pml2 buffer memory) pml2 guest
          ≡ some (record {
            address = large_frame (memory pml2) * 2097152 + guest % 2097152;
            memory_type =
                get_memory_type mtrr (large_frame (memory pml2) * 512 + guest / 4096 % 512) false
                % 8;
            rights = 7;
          })
    split_walk guest =
        let i = guest / 4096 % 512 in
        let w = memory pml2 in
        let type = get_memory_type mtrr (large_frame w * 512 + i) false in
        let small_index : i < 512 = omega arith in
        let to_frame : pa buffer / 4096 ≡ f = omega (arith, placed) in
        let pointer : split_entry pa mtrr pml2 buffer memory pml2 ≡ f * 4096 + 7 =
          split_pointer ∙ omega (arith, to_frame, bound) in
        let to_pml1 : va (frame (f * 4096 + 7) * 4096 + field 12 9 guest * 8) ≡ buffer + i * 8 =
          ap va (omega (arith, bound)) ∙ back (i * 8) (omega arith) in
        let result : Translation = record {
          address = large_frame w * 2097152 + guest % 2097152;
          memory_type = type % 8;
          rights = 7;
        } in
        let e = small i in
        let page : frame e * 4096 + guest % 4096 ≡ large_frame w * 2097152 + guest % 2097152 =
          rw (frame_small w i type small_index) (omega arith) in
        let leaf =
          walk_pml1_leaf va (split_entry pa mtrr pml2 buffer memory) (buffer + i * 8) e 0 guest
            (split_small i small_index) (rights_small w i type) in
        let leaf' : walk_pml1 va (split_entry pa mtrr pml2 buffer memory) (buffer + i * 8) guest
            ≡ some result =
          leaf ∙ rw (page, type_small w i type) refl in
        walk_pml2_pointer va (split_entry pa mtrr pml2 buffer memory) pml2 (f * 4096 + 7)
          (buffer + i * 8) guest pointer (omega arith) (omega arith) result refl to_pml1 leaf'

pub get_pml2_entry_below :
    (table physical : ℕ)
    → physical < 549755813888
    → get_pml2_entry table physical ≡ some (pml2_address table physical)
unfolding get_pml2_entry
get_pml2_entry_below table physical h =
    let low : ltb 0 (pml4_index physical) ≡ false = ground (arith, pml4_index_lem physical, h) in
    rw low

module _ {P : Type 0} (pa va : ℕ → ℕ) (mtrr : MtrrMap) (free : ℕ → AllocationType → P → P)
    (table buffer physical : ℕ) (memory : ℕ → ℕ) (pool : P) where
  -- `SplitLargePage` with a buffer apart from the page's own entry, on a page of 2 MB below 512 GB,
  -- answers true and leaves the pool as it is. From then on the processor translates each address
  -- through the entry as before, with all accesses allowed and with the memory type that its page of
  -- 4 KB has in the map of the MTRRs; and no word outside the entry and the buffer is changed. The
  -- buffer is one physical frame, at which the system maps it.
  pub split_large_page_lem :
      (f : ℕ)
      → physical < 549755813888
      → (buffer ≡ 0 → ⊥)
      → large_page (memory (pml2_address table physical)) ≡ 1
      → Outside buffer 1024 (pml2_address table physical)
      → f < 68719476736
      → pa buffer ≡ f * 4096
      → ((k : ℕ) → k < 4096 → va (f * 4096 + k) ≡ buffer + k)
      → let w = memory (pml2_address table physical) in
        let (s, answer) = split_large_page pa mtrr free table buffer physical (memory, pool) in
        (answer ≡ true)
        × (s.1 ≡ pool)
        × ((guest : ℕ)
            → walk_pml2 va s.0 (pml2_address table physical) guest
              ≡ some (record {
                address = large_frame w * 2097152 + guest % 2097152;
                memory_type =
                    get_memory_type mtrr (large_frame w * 512 + guest / 4096 % 512) false % 8;
                rights = 7;
              }))
        × ((b : ℕ)
            → (b == pml2_address table physical) ≡ false
            → Outside buffer 1024 b
            → s.0 b ≡ memory b)
  unfolding split_large_page
  split_large_page_lem f low real large apart bound placed back =
      let found = get_pml2_entry_below table physical low in
      let at = pml2_address table physical in
      let some_buffer : truthy buffer ≡ true = ground (arith, real) in
      rw (some_buffer, found, large)
        (
          refl,
          refl,
          split_walk pa mtrr at buffer memory apart va f bound placed back,
          split-Outside pa mtrr at buffer memory apart,
        )
