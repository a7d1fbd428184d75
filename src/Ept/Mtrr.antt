-- ===== src/Ept/Mtrr.antt =====
-- The map of memory types of NovaHypervisor/Ept.cpp: `BuildMtrrMap`, `GetMemoryType` and
-- `IsValidForLargePage`. The entries in use are the list; `readmsr` is what RDMSR returns.

pub mod Build
pub mod Large
use nova_hypervisor.Base.{
  ℕ, zero, suc, ◌+◌, ◌-◌, ◌*◌, ◌/◌, ◌%◌, ◌^◌, Bool, true, false, not, ◌&&◌, ◌||◌, ◌==◌, ltb, leb,
  truthy, if◌then◌else◌, List, [], ◌∷◌, ◌++◌,
}

-- `MTRR_RANGE_DESCRIPTOR`.
pub record MtrrRange : Type 0 where
  pub physical_base_address : ℕ
  pub physical_end_address : ℕ
  pub memory_type : ℕ
  pub fixed_range : Bool

pub record MtrrMap : Type 0 where
  pub ranges : List MtrrRange
  pub default_memory_type : ℕ

abbrev pub page_size : ℕ
page_size = 4096

abbrev pub size_2_mb : ℕ
size_2_mb = 2097152

abbrev pub uncacheable : ℕ
uncacheable = 0

abbrev pub write_through : ℕ
write_through = 4

abbrev pub write_back : ℕ
write_back = 6

abbrev pub invalid : ℕ
invalid = 255

-- `MAX_VARIABLE_RANGE_MTRRS`, `FIXED_RANGE_MTRRS_SIZE` and `MTRR_ENTRIES_SIZE`.
abbrev pub mtrr_entries_size : ℕ
mtrr_entries_size = 343

-- The loop on the 8 types of one fixed-range register, after `n` of its rounds.
unfoldable pub fixed_block : ℕ → ℕ → ℕ → ℕ → List MtrrRange
fixed_block base size types zero = []
fixed_block base size types (suc j) =
    fixed_block base size types j
    ++ record {
      physical_base_address = base + size * j;
      physical_end_address = base + size * j + (size - 1);
      memory_type = types / 2 ^ (8 * j) % 2 ^ 8;
      fixed_range = true;
    }
      ∷ []

-- The loop on `n` such registers that stand one after the other.
unfoldable pub fixed_blocks : (ℕ → ℕ) → ℕ → ℕ → ℕ → ℕ → List MtrrRange
fixed_blocks readmsr base size msr zero = []
fixed_blocks readmsr base size msr (suc i) =
    fixed_blocks readmsr base size msr i
    ++ fixed_block (base + i * size * 8) size (readmsr (msr + i)) 8

unfoldable pub fixed_ranges : (ℕ → ℕ) → List MtrrRange
fixed_ranges readmsr =
    fixed_block 0 65536 (readmsr 592) 8
    ++ (fixed_blocks readmsr 524288 16384 600 2 ++ fixed_blocks readmsr 786432 4096 616 8)

-- The index of the lowest bit that is set, below `fuel`; `_BitScanForward64` leaves the old index
-- where no bit is set.
unfoldable pub lowest_bit : ℕ → ℕ → ℕ
lowest_bit zero word = 0
lowest_bit (suc fuel) word =
    let rest = lowest_bit fuel (word / 2) in if word % 2 == 1 then 0 else suc rest

abbrev pub bit_scan_forward : ℕ → ℕ → ℕ
bit_scan_forward word old = if word == 0 then old else lowest_bit 64 word

-- `PageFrameNumber` of `IA32_MTRR_PHYSBASE_REGISTER` and of `IA32_MTRR_PHYSMASK_REGISTER`.
abbrev pub page_frame_number : ℕ → ℕ
page_frame_number flags = flags / 2 ^ 12 % 2 ^ 36

-- The loop on the variable ranges after its rounds: the list, and `numberOfBitsInMask`.
unfoldable pub variable_ranges : (ℕ → ℕ) → List MtrrRange → ℕ → List MtrrRange × ℕ
variable_ranges readmsr ranges zero = (ranges, 0)
variable_ranges readmsr ranges (suc register) =
    let (before, bits) = variable_ranges readmsr ranges register in
    let physbase = readmsr (512 + register * 2) in
    let physmask = readmsr (513 + register * 2) in
    if not (truthy (physmask / 2 ^ 11 % 2))
    then (before, bits)
    else let base = page_frame_number physbase * page_size in
      let bits' = bit_scan_forward (page_frame_number physmask * page_size) bits in
      let type = physbase % 2 ^ 8 in
      (
        if type == write_back
            then before
            else before
              ++ record {
                physical_base_address = base;
                physical_end_address = base + 2 ^ bits' - 1;
                memory_type = type;
                fixed_range = false;
              }
                ∷ [],
        bits',
      )

unfoldable pub build_mtrr_map : (ℕ → ℕ) → MtrrMap
build_mtrr_map readmsr =
    let def_type = readmsr 767 in
    let capabilities = readmsr 254 in
    if not (truthy (def_type / 2 ^ 11 % 2))
    then record { ranges = []; default_memory_type = uncacheable }
    else let fixed =
        if truthy (capabilities / 2 ^ 8 % 2) && truthy (def_type / 2 ^ 10 % 2)
        then fixed_ranges readmsr
        else [] in
      record {
        ranges = (variable_ranges readmsr fixed (capabilities % 2 ^ 8)).0;
        default_memory_type = def_type % 2 ^ 3;
      }

-- The test of `GetMemoryType` on one range.
abbrev pub covers : ℕ → MtrrRange → Bool
covers address r = leb r.physical_base_address address && ltb address r.physical_end_address

-- Its loop, with the type that is chosen so far.
unfoldable pub choose_type : ℕ → List MtrrRange → ℕ → ℕ
choose_type address [] target = target
choose_type address (r ∷ rest) target =
    let skip = choose_type address rest target in
    let mixed = choose_type address rest write_through in
    let take = choose_type address rest r.memory_type in
    if covers address r
    then if r.fixed_range
      then r.memory_type
      else if target == uncacheable
      then r.memory_type
      else if (target == write_through || r.memory_type == write_through) && target == write_back
      then mixed
      else take
    else skip

unfoldable pub get_memory_type : MtrrMap → ℕ → Bool → ℕ
get_memory_type m pfn is_large_page =
    let address = if is_large_page then pfn * size_2_mb else pfn * page_size in
    let target = choose_type address m.ranges invalid in
    if target == invalid then m.default_memory_type else target

-- The test of `IsValidForLargePage` on one range, for the page from `start` on.
abbrev pub straddles : ℕ → MtrrRange → Bool
straddles start r =
    let end = start + size_2_mb - 1 in
    leb start r.physical_end_address && ltb r.physical_end_address end
    || ltb start r.physical_base_address && leb r.physical_base_address end

unfoldable pub none_straddles : ℕ → List MtrrRange → Bool
none_straddles start [] = true
none_straddles start (r ∷ rest) =
    let others = none_straddles start rest in if straddles start r then false else others

unfoldable pub is_valid_for_large_page : MtrrMap → ℕ → Bool
is_valid_for_large_page m pfn = none_straddles (pfn * size_2_mb) m.ranges
