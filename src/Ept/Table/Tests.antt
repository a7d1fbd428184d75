-- ===== src/Ept/Table/Tests.antt =====
-- The page tables at concrete inputs. Memory is mapped at its own physical address.
use nova_hypervisor.Base.{
  ℕ, ◌+◌, ◌*◌, ◌/◌, ◌%◌, ◌<◌, ◌≤◌, ◌≡◌, refl, true, false, ◌==◌, none, some, [], arith, inl,
}
use nova_hypervisor.PoolManager.{AllocationType}
use nova_hypervisor.Ept.Mtrr.{MtrrMap, get_memory_type, is_valid_for_large_page, none_straddles}
use nova_hypervisor.Ept.Entry.{pml2_index, pml3_index, large_frame}
use nova_hypervisor.Ept.Table.{
  pml2_address, split_large_page, logical_processor_initialize, initialized,
}
use nova_hypervisor.Ept.Table.Fill.{Outside}
use nova_hypervisor.Ept.Table.Walk.{walk, walk_pml2}
use nova_hypervisor.Ept.Table.Split.{split_large_page_lem}
use nova_hypervisor.Ept.Table.Identity.{AllLarge, large_type}
use nova_hypervisor.Ept.Table.Processor.{logical_processor_initialize_lem}

abbrev same_address : ℕ → ℕ
same_address a = a

abbrev keep : ℕ → AllocationType → ℕ → ℕ
keep address type pool = pool

-- The map of a processor whose MTRRs name no range.
abbrev write_back_map : MtrrMap
write_back_map = record { ranges = []; default_memory_type = 6 }

all_large : AllLarge write_back_map
unfolding is_valid_for_large_page none_straddles
all_large k h = refl

-- The pool has no buffer, and the system gives the table at 1 MB.
logical_processor_initialize_lem_example :
    (let (s, made) =
        logical_processor_initialize same_address write_back_map keep
          (λ type pool. (pool, 0))
          (λ pool. (pool, 1048576))
          (λ address pool. pool)
          0
          ((λ a. 0), 5) in
      (made ≡ initialized 1048576 (256 * 4096 + 30))
      × (s.1 ≡ 5)
      × ((guest : ℕ)
          → guest < 549755813888
          → walk same_address s.0 (256 * 4096 + 30) guest
            ≡ some (record {
              address = guest;
              memory_type = large_type write_back_map (guest / 2097152) % 8;
              rights = 7;
            }))
      × ((guest : ℕ)
          → 549755813888 ≤ guest
          → guest < 281474976710656
          → walk same_address s.0 (256 * 4096 + 30) guest ≡ none))
logical_processor_initialize_lem_example =
    logical_processor_initialize_lem same_address same_address write_back_map keep
      (λ type pool. (pool, 0)) (λ pool. (pool, 1048576)) (λ address pool. pool) 0 256 1048576
      (λ a. 0) 5 5 all_large refl (λ e. absurd (omega (arith, e))) (omega arith)
      (λ k h. (omega arith, omega arith))

-- Each word is an entry of 2 MB, for the frame 3.
abbrev large_entries : ℕ → ℕ
large_entries a = 6291591

entry_of_page_3 : pml2_address 1048576 6291456 ≡ 1056792
unfolding pml2_index pml3_index
entry_of_page_3 = refl

apart_from_page_3 : Outside 16777216 1024 (pml2_address 1048576 6291456)
apart_from_page_3 = inl (omega (arith, entry_of_page_3))

split_large_page_lem_example :
    (let (s, answer) =
        split_large_page same_address write_back_map keep 1048576 16777216 6291456
          (large_entries, 5) in
      (answer ≡ true)
      × (s.1 ≡ 5)
      × ((guest : ℕ)
          → walk_pml2 same_address s.0 (pml2_address 1048576 6291456) guest
            ≡ some (record {
              address = large_frame 6291591 * 2097152 + guest % 2097152;
              memory_type =
                  get_memory_type write_back_map
                    (large_frame 6291591 * 512 + guest / 4096 % 512)
                    false
                  % 8;
              rights = 7;
            }))
      × ((b : ℕ)
          → (b == pml2_address 1048576 6291456) ≡ false
          → Outside 16777216 1024 b
          → s.0 b ≡ large_entries b))
split_large_page_lem_example =
    split_large_page_lem same_address same_address write_back_map keep 1048576 16777216 6291456
      large_entries 5 4096 (omega arith) (λ e. absurd (omega (arith, e))) refl apart_from_page_3
      (omega arith) refl (λ k h. omega arith)
