-- ===== src/Ept/Table/Walk.antt =====
-- How a processor walks the extended page tables (Intel SDM, volume 3C, 28.2.2), against which the
-- tables that Ept.cpp writes are read. `va` names the memory at a physical address.
use nova_hypervisor.Base.{
  ℕ, ◌+◌, ◌*◌, ◌%◌, ◌==◌, ◌≡◌, refl, if◌then◌else◌, bit_and, Option, none, some,
}
use nova_hypervisor.Ept.Entry.{field, frame, large_frame, large_page, memory_type_of}

-- The host's address, its memory type, and the accesses that are allowed (read 1, write 2, execute 4).
pub record Translation : Type 0 where
  pub address : ℕ
  pub memory_type : ℕ
  pub rights : ℕ

abbrev pub rights_of : ℕ → ℕ
rights_of entry = entry % 8

-- An access has to be allowed at each level.
abbrev pub restrict : ℕ → Option Translation → Option Translation
restrict allowed none = none
restrict allowed (some t) = some (record t { rights = bit_and allowed t.rights })

module _ (va : ℕ → ℕ) (memory : ℕ → ℕ) where
  abbrev pub walk_pml1 : ℕ → ℕ → Option Translation
  walk_pml1 at guest =
      let e = memory at in
      if rights_of e == 0
      then none
      else some (record {
        address = frame e * 4096 + guest % 4096;
        memory_type = memory_type_of e;
        rights = rights_of e;
      })

  abbrev pub walk_pml2 : ℕ → ℕ → Option Translation
  walk_pml2 at guest =
      let e = memory at in
      if rights_of e == 0
      then none
      else if large_page e == 1
      then some (record {
        address = large_frame e * 2097152 + guest % 2097152;
        memory_type = memory_type_of e;
        rights = rights_of e;
      })
      else restrict (rights_of e) (walk_pml1 (va (frame e * 4096 + field 12 9 guest * 8)) guest)

  -- An entry of PML3 with bit 7 maps 1 GB; its frame has 18 bits.
  abbrev pub walk_pml3 : ℕ → ℕ → Option Translation
  walk_pml3 at guest =
      let e = memory at in
      if rights_of e == 0
      then none
      else if large_page e == 1
      then some (record {
        address = field 30 18 e * 1073741824 + guest % 1073741824;
        memory_type = memory_type_of e;
        rights = rights_of e;
      })
      else restrict (rights_of e) (walk_pml2 (va (frame e * 4096 + field 21 9 guest * 8)) guest)

  abbrev pub walk_pml4 : ℕ → ℕ → Option Translation
  walk_pml4 at guest =
      let e = memory at in
      if rights_of e == 0
      then none
      else restrict (rights_of e) (walk_pml3 (va (frame e * 4096 + field 30 9 guest * 8)) guest)

  -- From the EPT pointer; guest addresses have 48 bits.
  abbrev pub walk : ℕ → ℕ → Option Translation
  walk eptp guest = walk_pml4 (va (frame eptp * 4096 + field 39 9 guest * 8)) guest

  -- Through entries that allow all accesses.
  module _ (at e next guest : ℕ) (here : memory at ≡ e) (all : rights_of e ≡ 7) where
    pub walk_pml1_leaf :
        walk_pml1 at guest
        ≡ some (record {
          address = frame e * 4096 + guest % 4096;
          memory_type = memory_type_of e;
          rights = 7;
        })
    walk_pml1_leaf = rw (here, all)

    pub walk_pml2_leaf :
        large_page e ≡ 1
        → walk_pml2 at guest
          ≡ some (record {
            address = large_frame e * 2097152 + guest % 2097152;
            memory_type = memory_type_of e;
            rights = 7;
          })
    walk_pml2_leaf large = rw (here, all, large)

    pub walk_pml2_below :
        large_page e ≡ 0
        → va (frame e * 4096 + field 12 9 guest * 8) ≡ next
        → walk_pml2 at guest ≡ restrict 7 (walk_pml1 next guest)
    walk_pml2_below pointer to = rw (here, all, pointer, to) refl

    module _ (pointer : large_page e ≡ 0) (result : Translation) (full : result.rights ≡ 7) where
      pub walk_pml2_pointer :
          va (frame e * 4096 + field 12 9 guest * 8) ≡ next
          → walk_pml1 next guest ≡ some result
          → walk_pml2 at guest ≡ some result
      walk_pml2_pointer to below = rw (here, all, pointer, to, below, full)

      pub walk_pml3_pointer :
          va (frame e * 4096 + field 21 9 guest * 8) ≡ next
          → walk_pml2 next guest ≡ some result
          → walk_pml3 at guest ≡ some result
      walk_pml3_pointer to below = rw (here, all, pointer, to, below, full)

      pub walk_pml4_pointer :
          va (frame e * 4096 + field 30 9 guest * 8) ≡ next
          → walk_pml3 next guest ≡ some result
          → walk_pml4 at guest ≡ some result
      walk_pml4_pointer to below = rw (here, all, to, below, full)
