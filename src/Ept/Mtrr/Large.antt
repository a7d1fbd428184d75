-- ===== src/Ept/Mtrr/Large.antt =====
-- When Ept.cpp maps 2 MB by one entry, one memory type serves all of it.
use nova_hypervisor.Base.{
  ℕ, ◌+◌, ◌-◌, ◌*◌, ◌<◌, ◌≤◌, ◌≡◌, ◌⊎◌, ◌↔◌, refl, true, false, List, [], ◌∷◌, All, arith,
  Bool-cases, inl, inr,
}
use nova_hypervisor.Ept.Mtrr.{
  MtrrRange, MtrrMap, covers, choose_type, get_memory_type, straddles, none_straddles,
  is_valid_for_large_page, page_size, size_2_mb, invalid,
}

-- A range is not empty.
abbrev pub IsRange : MtrrRange → Type 0
IsRange r = r.physical_base_address ≤ r.physical_end_address

-- The range holds all of the 2 MB from `start` on, or nothing of them.
abbrev pub InOrOut : ℕ → MtrrRange → Type 0
InOrOut start r =
    ((r.physical_base_address ≤ start) × (start + size_2_mb - 1 ≤ r.physical_end_address))
    ⊎ ((r.physical_end_address < start) ⊎ (start + size_2_mb - 1 < r.physical_base_address))

straddles_iff :
    (start : ℕ) (r : MtrrRange) → IsRange r → (straddles start r ≡ false) ↔ InOrOut start r
straddles_iff start r h = ground (arith, h)

none_straddles_iff :
    (start : ℕ) (l : List MtrrRange)
    → All IsRange l
    → (none_straddles start l ≡ true) ↔ All (InOrOut start) l
unfolding none_straddles
none_straddles_iff start [] h = ((λ e. tt), λ a. refl)
none_straddles_iff start (r ∷ rest) (hr, h) =
    let (from, to) = none_straddles_iff start rest h in
    let (from', to') = straddles_iff start r hr in
    (
      (λ e. elim (Bool-cases (straddles start r)) [
        | inl s ↦ absurd (ground (arith, e, s))
        | inr n ↦ (from' n, from (ground (arith, e, n)))
      ]),
      λ (a, b). rw (to' a, to b),
    )

-- `IsValidForLargePage` accepts a page just when each range holds all of the page or nothing of it.
pub is_valid_for_large_page_iff :
    (m : MtrrMap) (pfn : ℕ)
    → All IsRange m.ranges
    → (is_valid_for_large_page m pfn ≡ true) ↔ All (InOrOut (pfn * 2097152)) m.ranges
unfolding is_valid_for_large_page
is_valid_for_large_page_iff m pfn h = none_straddles_iff (pfn * size_2_mb) m.ranges h

covers_same :
    (start i : ℕ) (r : MtrrRange)
    → i < 512
    → IsRange r
    → straddles start r ≡ false
    → covers (start + i * 4096) r ≡ covers start r
covers_same start i r hi h e = ground (arith, h, e)

choose_type_same :
    (start i : ℕ) (l : List MtrrRange) (target : ℕ)
    → i < 512
    → All IsRange l
    → none_straddles start l ≡ true
    → choose_type (start + i * 4096) l target ≡ choose_type start l target
unfolding choose_type none_straddles
choose_type_same start i [] target hi h e = refl
choose_type_same start i (r ∷ rest) target hi (hr, h) e =
    let clear : (straddles start r ≡ false) × (none_straddles start rest ≡ true) =
      ground (arith, e) in
    let same : covers (start + i * 4096) r ≡ covers start r = covers_same start i r hi hr clear.0 in
    let go : (t : ℕ) → choose_type (start + i * 4096) rest t ≡ choose_type start rest t =
      λ t. choose_type_same start i rest t hi h clear.1 in
    rw (same, go target, go 4, go r.memory_type)

-- If `IsValidForLargePage` accepts a page of 2 MB, its memory type is that of each of the 512 pages
-- of 4 KB in it.
pub get_memory_type_uniform :
    (m : MtrrMap) (pfn i : ℕ)
    → i < 512
    → All IsRange m.ranges
    → is_valid_for_large_page m pfn ≡ true
    → get_memory_type m (pfn * 512 + i) false ≡ get_memory_type m pfn true
unfolding get_memory_type is_valid_for_large_page
get_memory_type_uniform m pfn i hi h e =
    let same = choose_type_same (pfn * size_2_mb) i m.ranges invalid hi h e in
    let place : (pfn * 512 + i) * page_size ≡ pfn * size_2_mb + i * 4096 = omega arith in
    rw (place, same)
