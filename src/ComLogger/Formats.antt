-- ===== src/ComLogger/Formats.antt =====
-- The formats of NovaHypervisor/ComLogger.cpp that do not end in the middle of a conversion.
use nova_hypervisor.Base.{
  ℕ, ◌≤◌, ◌≡◌, ◌∙◌, refl, sym, ap, inl, inr, Bool, true, false, ◌==◌, if◌then◌else◌, List, [], ◌∷◌,
  Option, none, some, length, arith, Bool-cases,
}
use nova_hypervisor.ComLogger.{is_digit, skip_digits, lengths_of}

-- Where in the format a character stands: in the text, behind a percent sign, in the digits behind it,
-- behind one `l`, or behind two.
pub data Place : Type 0 where
  in_text behind_percent in_digits behind_l behind_ll : Place

abbrev pub next_place : Place → ℕ → Place
next_place in_text c = if c == 37 then behind_percent else in_text
next_place behind_percent c =
    if c == 37
    then in_text
    else if is_digit c
    then in_digits
    else if c == 108
    then behind_l
    else in_text
next_place in_digits c = if is_digit c then in_digits else if c == 108 then behind_l else in_text
next_place behind_l c = if c == 108 then behind_ll else in_text
next_place behind_ll c = in_text

abbrev pub is_in_text : Place → Bool
is_in_text in_text = true
is_in_text behind_percent = false
is_in_text in_digits = false
is_in_text behind_l = false
is_in_text behind_ll = false

-- The format, read from a place on, ends in the text.
abbrev pub ends : Place → List ℕ → Bool
ends place [] = is_in_text place
ends place (c ∷ rest) = ends (next_place place c) rest

-- A format that is null, or does not end in the middle of a conversion.
abbrev pub EndedFormat : Option (List ℕ) → Type 0
EndedFormat none = Unit
EndedFormat (some chars) = ends in_text chars ≡ true

-- A rest of the format that starts with the character of the conversion and its lengths.
abbrev pub Conversion : List ℕ → ℕ → Type 0
Conversion chars n =
    (c : ℕ) × (rest : List ℕ) × (chars ≡ c ∷ rest)
    × (is_digit c ≡ false)
    × (ends in_digits (c ∷ rest) ≡ true)
    × (length rest ≤ n)

still_digits : (c : ℕ) → is_digit c ≡ true → next_place in_digits c ≡ in_digits
still_digits c digit = rw digit refl

pub skip_digits-Conversion :
    (c : ℕ) (rest : List ℕ)
    → ends in_digits (c ∷ rest) ≡ true
    → Conversion (skip_digits (c ∷ rest)) (length rest)
skip_digits-Conversion c [] h = elim (Bool-cases (is_digit c)) [
  | inr other ↦ (c, [], rw other refl, other, h, omega arith)
  | inl digit ↦
      let cut = ap (λ (q : Place). is_in_text q) (sym (still_digits c digit)) ∙ h in absurd (cc)
]
skip_digits-Conversion c (d ∷ rest) h = elim (Bool-cases (is_digit c)) [
  | inr other ↦ (c, d ∷ rest, rw other refl, other, h, omega arith)
  | inl digit ↦
      let later : ends in_digits (d ∷ rest) ≡ true =
        ap (λ (q : Place). ends q (d ∷ rest)) (sym (still_digits c digit)) ∙ h in
      let (e, rest', eq, plain, ended, le) = skip_digits-Conversion d rest later in
      (e, rest', rw digit eq, plain, ended, omega (arith, le))
]

-- What the lengths leave: the character of the conversion, and a rest that ends in the text.
abbrev pub Left : List ℕ → ℕ → Type 0
Left chars n =
    (c : ℕ) × (rest : List ℕ) × (chars ≡ c ∷ rest) × (ends in_text rest ≡ true) × (length rest ≤ n)

behind_one : (c : ℕ) → is_digit c ≡ false → (c == 108) ≡ true → next_place in_digits c ≡ behind_l
behind_one c plain one = rw (plain, one) refl

behind_none : (c : ℕ) → is_digit c ≡ false → (c == 108) ≡ false → next_place in_digits c ≡ in_text
behind_none c plain other = rw (plain, other) refl

behind_two : (c : ℕ) → (c == 108) ≡ true → next_place behind_l c ≡ behind_ll
behind_two c one = rw one refl

behind_once : (c : ℕ) → (c == 108) ≡ false → next_place behind_l c ≡ in_text
behind_once c other = rw other refl

pub lengths_of-Left :
    (c : ℕ) (rest : List ℕ)
    → is_digit c ≡ false
    → ends in_digits (c ∷ rest) ≡ true
    → Left (lengths_of (c ∷ rest)).2 (length rest)
lengths_of-Left c [] plain h = elim (Bool-cases (c == 108)) [
  | inl one ↦
      let ended = ap (λ (q : Place). ends q []) (sym (behind_one c plain one)) ∙ h in absurd (cc)
  | inr other ↦ (c, [], rw other refl, refl, omega arith)
]
lengths_of-Left c (d ∷ []) plain h = elim (Bool-cases (c == 108)) [
  | inr other ↦
      let ended = ap (λ (q : Place). ends q (d ∷ [])) (sym (behind_none c plain other)) ∙ h in
      (c, d ∷ [], rw other refl, ended, omega arith)
  | inl one ↦
      let ended = ap (λ (q : Place). ends q (d ∷ [])) (sym (behind_one c plain one)) ∙ h in
      elim (Bool-cases (d == 108)) [
        | inl two ↦ let cut = ap is_in_text (sym (behind_two d two)) ∙ ended in absurd (cc)
        | inr last ↦ (d, [], rw (one, last) refl, refl, omega arith)
      ]
]
lengths_of-Left c (d ∷ e ∷ rest) plain h = elim (Bool-cases (c == 108)) [
  | inr other ↦
      let ended = ap (λ (q : Place). ends q (d ∷ e ∷ rest)) (sym (behind_none c plain other)) ∙ h in
      (c, d ∷ e ∷ rest, rw other refl, ended, omega arith)
  | inl one ↦
      let ended = ap (λ (q : Place). ends q (d ∷ e ∷ rest)) (sym (behind_one c plain one)) ∙ h in
      elim (Bool-cases (d == 108)) [
        | inl two ↦
            let text = ap (λ (q : Place). ends q (e ∷ rest)) (sym (behind_two d two)) ∙ ended in
            (e, rest, rw (one, two) refl, text, omega arith)
        | inr once ↦
            let text = ap (λ (q : Place). ends q (e ∷ rest)) (sym (behind_once d once)) ∙ ended in
            (d, e ∷ rest, rw (one, once) refl, text, omega arith)
      ]
]

-- The steps of the place that the loop of `FormatMessage` tells apart.
pub text_plain : (c : ℕ) → (c == 37) ≡ false → next_place in_text c ≡ in_text
text_plain c other = rw other refl

pub text_percent : (c : ℕ) → (c == 37) ≡ true → next_place in_text c ≡ behind_percent
text_percent c percent = rw percent refl

pub percent_twice : (c : ℕ) → (c == 37) ≡ true → next_place behind_percent c ≡ in_text
percent_twice c percent = rw percent refl

pub percent_other :
    (c : ℕ) → (c == 37) ≡ false → next_place behind_percent c ≡ next_place in_digits c
percent_other c other = rw other refl
