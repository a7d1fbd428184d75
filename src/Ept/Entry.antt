-- ===== src/Ept/Entry.antt =====
-- The words of the extended page tables, NovaHypervisor/HypervisorDefinitions.h: the bit fields of the
-- entries, and the indices that an address gives at each level.
use nova_hypervisor.Base.{
  ℕ, ◌+◌, ◌*◌, ◌/◌, ◌%◌, ◌^◌, ◌<◌, ◌≡◌, bit_and, bit_and_low, bit_and_field, arith,
}

-- The bit field of `width` bits at position `at`, and an assignment to it.
abbrev pub field : ℕ → ℕ → ℕ → ℕ
field at width word = word / 2 ^ at % 2 ^ width

abbrev pub set_field : ℕ → ℕ → ℕ → ℕ → ℕ
set_field at width value word =
    word / 2 ^ (at + width) * 2 ^ (at + width) + value % 2 ^ width * 2 ^ at + word % 2 ^ at

-- The members that the entries share.
abbrev pub read_access : ℕ → ℕ
read_access = field 0 1

abbrev pub write_access : ℕ → ℕ
write_access = field 1 1

abbrev pub execute_access : ℕ → ℕ
execute_access = field 2 1

abbrev pub set_read_access : ℕ → ℕ → ℕ
set_read_access = set_field 0 1

abbrev pub set_write_access : ℕ → ℕ → ℕ
set_write_access = set_field 1 1

abbrev pub set_execute_access : ℕ → ℕ → ℕ
set_execute_access = set_field 2 1

abbrev pub memory_type_of : ℕ → ℕ
memory_type_of = field 3 3

abbrev pub set_memory_type : ℕ → ℕ → ℕ
set_memory_type = set_field 3 3

abbrev pub ignore_pat : ℕ → ℕ
ignore_pat = field 6 1

abbrev pub set_ignore_pat : ℕ → ℕ → ℕ
set_ignore_pat = set_field 6 1

abbrev pub suppress_ve : ℕ → ℕ
suppress_ve = field 63 1

abbrev pub set_suppress_ve : ℕ → ℕ → ℕ
set_suppress_ve = set_field 63 1

-- `LargePage` and `PageFrameNumber` of `EPDE_2MB`.
abbrev pub large_page : ℕ → ℕ
large_page = field 7 1

abbrev pub set_large_page : ℕ → ℕ → ℕ
set_large_page = set_field 7 1

abbrev pub large_frame : ℕ → ℕ
large_frame = field 21 27

abbrev pub set_large_frame : ℕ → ℕ → ℕ
set_large_frame = set_field 21 27

-- `PageFrameNumber` of `EPT_PML4`, `EPDPTE`, `EPDE`, `EPTE` and `EPTP`.
abbrev pub frame : ℕ → ℕ
frame = field 12 36

abbrev pub set_frame : ℕ → ℕ → ℕ
set_frame = set_field 12 36

-- `ADDRMASK_EPT_PML1_OFFSET` and the `ADDRMASK_EPT_PML<n>_INDEX`.
unfoldable pub pml1_offset : ℕ → ℕ
pml1_offset address = bit_and address 4095

unfoldable pub pml1_index : ℕ → ℕ
pml1_index address = bit_and address 2093056 / 2 ^ 12

unfoldable pub pml2_index : ℕ → ℕ
pml2_index address = bit_and address 1071644672 / 2 ^ 21

unfoldable pub pml3_index : ℕ → ℕ
pml3_index address = bit_and address 548682072064 / 2 ^ 30

unfoldable pub pml4_index : ℕ → ℕ
pml4_index address = bit_and address 280925220896768 / 2 ^ 39

module _ (address : ℕ) where
  pub pml1_offset_lem : pml1_offset address ≡ address % 4096
  unfolding pml1_offset
  pml1_offset_lem = bit_and_low 12 address

  pub pml1_index_lem : pml1_index address ≡ field 12 9 address
  unfolding pml1_index
  pml1_index_lem = ground (arith, bit_and_field 12 9 address)

  pub pml2_index_lem : pml2_index address ≡ field 21 9 address
  unfolding pml2_index
  pml2_index_lem = ground (arith, bit_and_field 21 9 address)

  pub pml3_index_lem : pml3_index address ≡ field 30 9 address
  unfolding pml3_index
  pml3_index_lem = ground (arith, bit_and_field 30 9 address)

  pub pml4_index_lem : pml4_index address ≡ field 39 9 address
  unfolding pml4_index
  pml4_index_lem = ground (arith, bit_and_field 39 9 address)

  -- The five parts of an address of at most 48 bits that the macros take out give the address back.
  pub recompose_address :
      address < 281474976710656
      → pml4_index address * 549755813888
          + pml3_index address * 1073741824
          + pml2_index address * 2097152
          + pml1_index address * 4096
          + pml1_offset address
        ≡ address
  recompose_address h =
      omega (arith, pml1_offset_lem, pml1_index_lem, pml2_index_lem, pml3_index_lem, pml4_index_lem)

-- `EPTP`: its memory type shares the low bits that the access rights have in an entry.
abbrev pub set_ept_memory_type : ℕ → ℕ → ℕ
set_ept_memory_type = set_field 0 3

abbrev pub set_page_walk_length : ℕ → ℕ → ℕ
set_page_walk_length = set_field 3 3

abbrev pub set_enable_access_and_dirty_flags : ℕ → ℕ → ℕ
set_enable_access_and_dirty_flags = set_field 6 1
