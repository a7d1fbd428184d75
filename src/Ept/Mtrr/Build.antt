-- ===== src/Ept/Mtrr/Build.antt =====
-- The map that `BuildMtrrMap` of Ept.cpp leaves: where its ranges lie and how many there are.
use mathlib.Core.Path.{subst}
use native.Mathlib.Nat.{one-le-pow}
use nova_hypervisor.Base.{
  ℕ, zero, suc, ◌+◌, ◌*◌, ◌/◌, ◌%◌, ◌^◌, ◌<◌, ◌≤◌, ◌≡◌, refl, ◌∙◌, sym, true, false, not, ◌&&◌,
  ◌==◌, truthy, if◌then◌else◌, List, [], ◌∷◌, ◌++◌, All, All-append, length, length-append, arith,
  Bool-cases, inl, inr,
}
use nova_hypervisor.Ept.Mtrr.{
  MtrrRange, fixed_block, fixed_blocks, fixed_ranges, variable_ranges, build_mtrr_map,
  mtrr_entries_size, write_back, page_frame_number, page_size, bit_scan_forward, get_memory_type,
  is_valid_for_large_page,
}
use nova_hypervisor.Ept.Mtrr.Large.{IsRange, get_memory_type_uniform}

-- The ranges follow one another without a gap and without an overlap, from `lower` to just below
-- `upper`.
unfoldable pub Tiles : ℕ → ℕ → List MtrrRange → Type 0
Tiles lower upper [] = lower ≡ upper
Tiles lower upper (r ∷ rest) =
    (r.physical_base_address ≡ lower)
    × (lower ≤ r.physical_end_address)
    × Tiles (r.physical_end_address + 1) upper rest

Tiles-append :
    (lower middle upper : ℕ) (xs ys : List MtrrRange)
    → Tiles lower middle xs
    → Tiles middle upper ys
    → Tiles lower upper (xs ++ ys)
unfolding Tiles
Tiles-append lower middle upper [] ys e h = subst (λ n. Tiles n upper ys) (sym e) h
Tiles-append lower middle upper (r ∷ rest) ys (e, le, t) h =
    (e, le, Tiles-append (r.physical_end_address + 1) middle upper rest ys t h)

fixed_block-Tiles :
    (base size types n : ℕ)
    → 0 < size
    → Tiles base (base + size * n) (fixed_block base size types n)
unfolding fixed_block Tiles
fixed_block-Tiles base size types zero h = ground arith
fixed_block-Tiles base size types (suc n) h =
    Tiles-append base (base + size * n) (base + size * suc n) _ _
      (fixed_block-Tiles base size types n h) (refl, omega arith, ground arith)

fixed_blocks-Tiles :
    (readmsr : ℕ → ℕ) (base size msr n : ℕ)
    → 0 < size
    → Tiles base (base + n * size * 8) (fixed_blocks readmsr base size msr n)
unfolding fixed_blocks Tiles
fixed_blocks-Tiles readmsr base size msr zero h = ground arith
fixed_blocks-Tiles readmsr base size msr (suc n) h =
    let next = fixed_block-Tiles (base + n * size * 8) size (readmsr (msr + n)) 8 h in
    let end : base + n * size * 8 + size * 8 ≡ base + suc n * size * 8 = ground arith in
    Tiles-append base (base + n * size * 8) (base + suc n * size * 8) _ _
      (fixed_blocks-Tiles readmsr base size msr n h)
      (subst
        (λ (t : ℕ).
          Tiles (base + n * size * 8) t
            (fixed_block (base + n * size * 8) size (readmsr (msr + n)) 8))
        end next)

-- The fixed ranges cover the first megabyte, without a gap and without an overlap.
pub fixed_ranges-Tiles : (readmsr : ℕ → ℕ) → Tiles 0 (2 ^ 20) (fixed_ranges readmsr)
unfolding fixed_ranges
fixed_ranges-Tiles readmsr =
    Tiles-append 0 524288 1048576 _ _ (fixed_block-Tiles 0 65536 (readmsr 592) 8 (omega arith)) (
      Tiles-append 524288 786432 1048576 _ _
        (fixed_blocks-Tiles readmsr 524288 16384 600 2 (omega arith))
        (fixed_blocks-Tiles readmsr 786432 4096 616 8 (omega arith)))

length-fixed_block : (base size types n : ℕ) → length (fixed_block base size types n) ≡ n
unfolding fixed_block
length-fixed_block base size types zero = refl
length-fixed_block base size types (suc n) =
    length-append (fixed_block base size types n) _
    ∙ omega (arith, length-fixed_block base size types n)

length-fixed_blocks :
    (readmsr : ℕ → ℕ) (base size msr n : ℕ) → length (fixed_blocks readmsr base size msr n) ≡ n * 8
unfolding fixed_blocks
length-fixed_blocks readmsr base size msr zero = refl
length-fixed_blocks readmsr base size msr (suc n) =
    length-append (fixed_blocks readmsr base size msr n) _
    ∙ omega (
      arith,
      length-fixed_blocks readmsr base size msr n,
      length-fixed_block (base + n * size * 8) size (readmsr (msr + n)) 8,
    )

length-fixed_ranges : (readmsr : ℕ → ℕ) → length (fixed_ranges readmsr) ≡ 88
unfolding fixed_ranges
length-fixed_ranges readmsr =
    length-append (fixed_block 0 65536 (readmsr 592) 8)
      (fixed_blocks readmsr 524288 16384 600 2 ++ fixed_blocks readmsr 786432 4096 616 8)
    ∙ omega (
      arith,
      length-fixed_block 0 65536 (readmsr 592) 8,
      length-append (fixed_blocks readmsr 524288 16384 600 2)
          (fixed_blocks readmsr 786432 4096 616 8),
      length-fixed_blocks readmsr 524288 16384 600 2,
      length-fixed_blocks readmsr 786432 4096 616 8,
    )

length-variable_ranges :
    (readmsr : ℕ → ℕ) (ranges : List MtrrRange) (n : ℕ)
    → length (variable_ranges readmsr ranges n).0 ≤ length ranges + n
unfolding variable_ranges
length-variable_ranges readmsr ranges zero = omega arith
length-variable_ranges readmsr ranges (suc n) =
    let before = (variable_ranges readmsr ranges n).0 in
    elim (Bool-cases (not (truthy (readmsr (513 + n * 2) / 2 ^ 11 % 2)))) [
      | inl off ↦ rw (off, variable_ranges) (omega (arith, length-variable_ranges readmsr ranges n))
      | inr on ↦
          rw (on, variable_ranges)
            (elim (Bool-cases (readmsr (512 + n * 2) % 2 ^ 8 == write_back)) [
              | inl back ↦ rw back (omega (arith, length-variable_ranges readmsr ranges n))
              | inr kept ↦
                  rw (kept, length-append before _)
                    (omega (arith, length-variable_ranges readmsr ranges n))
            ])
    ]

-- The fixed part of the list, as `BuildMtrrMap` chooses it.
abbrev fixed_part : (ℕ → ℕ) → List MtrrRange
fixed_part readmsr =
    if truthy (readmsr 254 / 2 ^ 8 % 2) && truthy (readmsr 767 / 2 ^ 10 % 2)
    then fixed_ranges readmsr
    else []

length-fixed_part : (readmsr : ℕ → ℕ) → length (fixed_part readmsr) ≤ 88
length-fixed_part readmsr =
    elim (Bool-cases (truthy (readmsr 254 / 2 ^ 8 % 2) && truthy (readmsr 767 / 2 ^ 10 % 2))) [
      | inl on ↦ rw (on, length-fixed_ranges readmsr) (omega arith)
      | inr off ↦ rw off (omega arith)
    ]

-- The array of the map has room for each variable range before it is written, also where it is then
-- dropped because it is write-back, and for the whole map.
pub build_mtrr_map_bounds :
    (readmsr : ℕ → ℕ)
    → ((register : ℕ)
        → register < readmsr 254 % 2 ^ 8
        → length (variable_ranges readmsr (fixed_ranges readmsr) register).0 < mtrr_entries_size)
      × (length (build_mtrr_map readmsr).ranges ≤ mtrr_entries_size)
unfolding build_mtrr_map
build_mtrr_map_bounds readmsr =
    let fits = length-variable_ranges readmsr (fixed_part readmsr) (readmsr 254 % 2 ^ 8) in
    let room = length-fixed_part readmsr in
    (
      (λ register h. omega (
        arith,
        length-variable_ranges readmsr (fixed_ranges readmsr) register,
        length-fixed_ranges readmsr,
      )),
      elim (Bool-cases (not (truthy (readmsr 767 / 2 ^ 11 % 2)))) [
        | inl off ↦ rw (off, build_mtrr_map) (omega arith)
        | inr on ↦ rw (on, build_mtrr_map) (omega (arith, fits, room))
      ],
    )

fixed_block-IsRange : (base size types n : ℕ) → All IsRange (fixed_block base size types n)
unfolding fixed_block
fixed_block-IsRange base size types zero = tt
fixed_block-IsRange base size types (suc n) =
    All-append IsRange (fixed_block base size types n) _ (fixed_block-IsRange base size types n)
      (omega arith, tt)

fixed_blocks-IsRange :
    (readmsr : ℕ → ℕ) (base size msr n : ℕ) → All IsRange (fixed_blocks readmsr base size msr n)
unfolding fixed_blocks
fixed_blocks-IsRange readmsr base size msr zero = tt
fixed_blocks-IsRange readmsr base size msr (suc n) =
    All-append IsRange (fixed_blocks readmsr base size msr n) _
      (fixed_blocks-IsRange readmsr base size msr n)
      (fixed_block-IsRange (base + n * size * 8) size (readmsr (msr + n)) 8)

fixed_part-IsRange : (readmsr : ℕ → ℕ) → All IsRange (fixed_part readmsr)
unfolding fixed_ranges
fixed_part-IsRange readmsr =
    elim (Bool-cases (truthy (readmsr 254 / 2 ^ 8 % 2) && truthy (readmsr 767 / 2 ^ 10 % 2))) [
      | inl on ↦ rw on (
          All-append IsRange (fixed_block 0 65536 (readmsr 592) 8) _
            (fixed_block-IsRange 0 65536 (readmsr 592) 8)
            (All-append IsRange (fixed_blocks readmsr 524288 16384 600 2) _
              (fixed_blocks-IsRange readmsr 524288 16384 600 2)
              (fixed_blocks-IsRange readmsr 786432 4096 616 8)))
      | inr off ↦ rw off tt
    ]

variable_ranges-IsRange :
    (readmsr : ℕ → ℕ) (ranges : List MtrrRange) (n : ℕ)
    → All IsRange ranges
    → All IsRange (variable_ranges readmsr ranges n).0
unfolding variable_ranges
variable_ranges-IsRange readmsr ranges zero h = h
variable_ranges-IsRange readmsr ranges (suc n) h =
    let before = variable_ranges readmsr ranges n in
    let held = variable_ranges-IsRange readmsr ranges n h in
    let bits = bit_scan_forward (page_frame_number (readmsr (513 + n * 2)) * page_size) before.1 in
    elim (Bool-cases (not (truthy (readmsr (513 + n * 2) / 2 ^ 11 % 2)))) [
      | inl off ↦ rw (off, variable_ranges) held
      | inr on ↦
          rw (on, variable_ranges)
            (elim (Bool-cases (readmsr (512 + n * 2) % 2 ^ 8 == write_back)) [
              | inl back ↦ rw back held
              | inr kept ↦
                  rw kept
                    (All-append IsRange before.0 _ held (omega (arith, one-le-pow bits 2), tt))
            ])
    ]

pub build_mtrr_map-IsRange : (readmsr : ℕ → ℕ) → All IsRange (build_mtrr_map readmsr).ranges
unfolding build_mtrr_map
build_mtrr_map-IsRange readmsr = elim (Bool-cases (not (truthy (readmsr 767 / 2 ^ 11 % 2)))) [
  | inl off ↦ rw (off, build_mtrr_map) tt
  | inr on ↦
      rw (on, build_mtrr_map)
        (variable_ranges-IsRange readmsr (fixed_part readmsr) _ (fixed_part-IsRange readmsr))
]

-- In the map of `BuildMtrrMap`, if `IsValidForLargePage` accepts a page of 2 MB, then the memory type
-- that `GetMemoryType` finds for it is the type of each of the 512 pages of 4 KB in it.
pub large_page_type :
    (readmsr : ℕ → ℕ) (pfn i : ℕ)
    → i < 512
    → is_valid_for_large_page (build_mtrr_map readmsr) pfn ≡ true
    → get_memory_type (build_mtrr_map readmsr) (pfn * 512 + i) false
      ≡ get_memory_type (build_mtrr_map readmsr) pfn true
large_page_type readmsr pfn i hi h =
    get_memory_type_uniform (build_mtrr_map readmsr) pfn i hi (build_mtrr_map-IsRange readmsr) h
