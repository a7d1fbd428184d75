-- ===== src/Layout/Laws.antt =====
-- What the bit fields of NovaHypervisor/HypervisorDefinitions.h keep: an assignment to one member, and
-- the shared accessors of the paging entries.
use native.Mathlib.Nat.{
  mod-lt, mul-add-mod_self_right, mul-add-div_right, div-eq_of_lt, mod-eq_of_lt, add-zero,
  one-le-pow,
}
use nova_hypervisor.Base.{
  ℕ, zero, suc, ◌+◌, ◌*◌, ◌/◌, ◌%◌, ◌^◌, ◌<◌, ◌≡◌, ◌≢◌, ◌∙◌, refl, ap, [], ◌∷◌, some, get_elem?,
  arith,
}
use mathlib.Core.Option.{some-injective}
use nova_hypervisor.Layout.{
  Layout, member, set_member, total, ept_pml4, epdpte, epdpte_1gb, epde_2mb, epde, epte,
  eptp_layout,
}
use nova_hypervisor.Ept.Entry.{field, set_field}

positive : (w : ℕ) → 0 < 2 ^ w
positive w = one-le-pow w 2 (omega arith)

-- A word put together from a part below `2 ^ w` and the rest.
module _ (w q r : ℕ) (h : r < 2 ^ w) where
  low_part : (q * 2 ^ w + r) % 2 ^ w ≡ r
  low_part = mul-add-mod_self_right q (2 ^ w) r ∙ mod-eq_of_lt h

  rest_part : (q * 2 ^ w + r) / 2 ^ w ≡ q
  rest_part =
      mul-add-div_right (positive w) q r ∙ ap (λ (t : ℕ). q + t) (div-eq_of_lt h) ∙ add-zero q

below : (w v : ℕ) → v % 2 ^ w < 2 ^ w
below w v = mod-lt v (positive w)

-- A member reads back what was assigned to it, cut to its width.
set_member_same :
    (layout : Layout) (i w value word : ℕ)
    → get_elem? layout i ≡ some w
    → member layout i (set_member layout i value word) ≡ value % 2 ^ w
set_member_same [] i w value word h = absurd (cc)
set_member_same (v ∷ rest) zero w value word h =
    low_part v (word / 2 ^ v) (value % 2 ^ v) (below v value)
    ∙ ap (λ (t : ℕ). value % 2 ^ t) (some-injective v w h)
set_member_same (v ∷ rest) (suc i) w value word h =
    ap (member rest i)
      (rest_part v (set_member rest i value (word / 2 ^ v)) (word % 2 ^ v) (below v word))
    ∙ set_member_same rest i w value (word / 2 ^ v) h

-- Every other member is as before.
set_member_other :
    (layout : Layout) (i j value word : ℕ)
    → i ≢ j
    → member layout j (set_member layout i value word) ≡ member layout j word
set_member_other [] i j value word h = refl
set_member_other (v ∷ rest) zero zero value word h = absurd (h refl)
set_member_other (v ∷ rest) zero (suc j) value word h =
    ap (member rest j) (rest_part v (word / 2 ^ v) (value % 2 ^ v) (below v value))
set_member_other (v ∷ rest) (suc i) zero value word h =
    low_part v (set_member rest i value (word / 2 ^ v)) (word % 2 ^ v) (below v word)
set_member_other (v ∷ rest) (suc i) (suc j) value word h =
    ap (member rest j)
      (rest_part v (set_member rest i value (word / 2 ^ v)) (word % 2 ^ v) (below v word))
    ∙ set_member_other rest i j value (word / 2 ^ v) (λ e. h (ap suc e))

-- An assignment to a member of any layout is read back cut to the width of the member, and leaves every
-- other member as it was.
pub set_member_lem :
    (layout : Layout) (i w value word : ℕ)
    → get_elem? layout i ≡ some w
    → (member layout i (set_member layout i value word) ≡ value % 2 ^ w)
      × ((j : ℕ) → i ≢ j → member layout j (set_member layout i value word) ≡ member layout j word)
set_member_lem layout i w value word h =
    (set_member_same layout i w value word h, λ j. set_member_other layout i j value word)

-- The field of `width` bits at `at` is the member `i` of the layout, to read and to write.
abbrev pub Is : Layout → ℕ → ℕ → ℕ → Type 0
Is layout i at width =
    (word value : ℕ)
    → (field at width word ≡ member layout i word)
      × (set_field at width value word ≡ set_member layout i value word)

-- The access rights of an entry.
abbrev pub Rights : Layout → Type 0
Rights layout = Is layout 0 0 1 × Is layout 1 1 1 × Is layout 2 2 1

members-epte : Rights epte
members-epte = (
  λ w v. (omega arith, omega arith),
  λ w v. (omega arith, omega arith),
  λ w v. (omega arith, omega arith),
)

members-epde_2mb : Rights epde_2mb
members-epde_2mb = (
  λ w v. (omega arith, omega arith),
  λ w v. (omega arith, omega arith),
  λ w v. (omega arith, omega arith),
)

-- The three formats of a pointer to a table are one layout.
members-epde : Rights epde
members-epde = (
  λ w v. (omega arith, omega arith),
  λ w v. (omega arith, omega arith),
  λ w v. (omega arith, omega arith),
)

-- The accessors that the paging entries share are the members of each format in which they are used: the
-- access rights at bits 0 to 2 in all five, the memory type, the PAT and the #VE bits of both kinds of
-- pages, the bit and the frame of a page of 2 MB, the frame of a pointer and of a page of 4 KB, and the
-- three members of the EPT pointer below its frame.
pub entry_members :
    (Rights ept_pml4 × Rights epdpte × Rights epde × Rights epde_2mb × Rights epte)
    × (Is ept_pml4 8 12 36 × Is epdpte 8 12 36 × Is epde 8 12 36 × Is epte 10 12 36)
    × (Is epde_2mb 3 3 3
        × Is epde_2mb 4 6 1
        × Is epde_2mb 5 7 1
        × Is epde_2mb 10 21 27
        × Is epde_2mb 12 63 1)
    × (Is epte 3 3 3 × Is epte 4 6 1 × Is epte 12 63 1)
    × (Is eptp_layout 0 0 3 × Is eptp_layout 1 3 3 × Is eptp_layout 2 6 1 × Is eptp_layout 4 12 36)
entry_members =
    let frame : Is epde 8 12 36 = λ w v. (omega arith, omega arith) in
    (
      (members-epde, members-epde, members-epde, members-epde_2mb, members-epte),
      (frame, frame, frame, λ w v. (omega arith, omega arith)),
      (
        λ w v. (omega arith, omega arith),
        λ w v. (omega arith, omega arith),
        λ w v. (omega arith, omega arith),
        λ w v. (omega arith, omega arith),
        λ w v. (omega arith, omega arith),
      ),
      (
        λ w v. (omega arith, omega arith),
        λ w v. (omega arith, omega arith),
        λ w v. (omega arith, omega arith),
      ),
      (
        λ w v. (omega arith, omega arith),
        λ w v. (omega arith, omega arith),
        λ w v. (omega arith, omega arith),
        λ w v. (omega arith, omega arith),
      ),
    )

-- Every format fills its word.
pub layouts_total :
    (total ept_pml4 ≡ 64)
    × (total epdpte ≡ 64)
    × (total epdpte_1gb ≡ 64)
    × (total epde_2mb ≡ 64)
    × (total epde ≡ 64)
    × (total epte ≡ 64)
    × (total eptp_layout ≡ 64)
layouts_total = (refl, refl, refl, refl, refl, refl, refl)
