-- ===== src/Ept/Table/Raise/Tests.antt =====
-- `LogicalProcessorInitialize` where the page 1 of 2 MB needs a split.
use nova_hypervisor.Base.{◌+◌, ◌*◌, ◌≡◌, refl, false, [], ◌∷◌, arith}
use nova_hypervisor.Ept.Entry.{set_large_frame}
use nova_hypervisor.Ept.Mtrr.{MtrrMap, is_valid_for_large_page, none_straddles}
use nova_hypervisor.Ept.Table.{pml2_of, raised, logical_processor_initialize}
use nova_hypervisor.Ept.Table.Raise.{logical_processor_initialize_raises}

-- A range ends within the page 1.
abbrev uneven_map : MtrrMap
uneven_map = record {
  ranges =
      record {
        physical_base_address = 0;
        physical_end_address = 2101247;
        memory_type = 0;
        fixed_range = false;
      }
      ∷ [];
  default_memory_type = 6;
}

needs_split : is_valid_for_large_page uneven_map 1 ≡ false
unfolding is_valid_for_large_page none_straddles
needs_split = refl

-- The pool counts what has been taken; the buffer is at 16 MB, and the system gives the table at 1 MB.
logical_processor_initialize_raises_example :
    (let (s, made) =
        logical_processor_initialize
          (λ a. a)
          uneven_map
          (λ address type pool. pool)
          (λ type pool. (pool + 1, 16777216))
          (λ pool. (pool + 1, 1048576))
          (λ address pool. pool)
          0
          ((λ a. 0), 5) in
      (made ≡ raised) × (s.1 ≡ 5 + 1 + 1) × (s.0 (pml2_of 1048576 + 1 * 8) ≡ set_large_frame 1 135))
logical_processor_initialize_raises_example =
    logical_processor_initialize_raises (λ a. a) (λ a. a) uneven_map (λ address type pool. pool)
      (λ type pool. (pool + 1, 16777216)) 1 (omega arith) (omega arith)
      (λ j some_page below. absurd (omega (arith, some_page, below))) needs_split
      (λ pool. (pool + 1, 1048576)) (λ address pool. pool) 256 1048576 16777216 (λ a. 0) 5 (5 + 1)
      (5 + 1 + 1) refl refl refl refl (omega arith) (λ n h. (omega arith, omega arith))
