-- ===== src/ComLogger/Digits.antt =====
-- The numbers in the messages of NovaHypervisor/ComLogger.cpp.
use native.Mathlib.Nat.{
  pow-le-pow_left, le-div_iff_mul-le, pow-zero, pow-suc, mod-lt, div-lt_iff_lt-mul, div-add-mod',
}
use nova_hypervisor.Base.{
  All, ◌&&◌, ◌⊎◌, ℕ, zero, suc, ◌+◌, ◌-◌, ◌*◌, ◌/◌, ◌%◌, ◌^◌, ◌<◌, ◌≤◌, ◌≡◌, ◌∙◌, refl, ap, inl,
  inr, Bool, true, false, not, ◌||◌, ◌==◌, ltb, leb, truthy, if◌then◌else◌, List, [], ◌∷◌, length,
  arith, Bool-cases,
}
use nova_hypervisor.Ept.Hooks.{put}
use nova_hypervisor.ComLogger.{
  Text, digit_of, digits_of, append_char, append_digits, append_unsigned,
}

-- The value of a character as a digit, with letters in upper case or in lower case only; 16 is no digit.
abbrev pub digit_value : Bool → ℕ → ℕ
digit_value uppercase c =
    if leb 48 c && leb c 57
    then c - 48
    else if uppercase && (leb 65 c && leb c 70)
    then c - 55
    else if not uppercase && (leb 97 c && leb c 102)
    then c - 87
    else 16

-- The value of a list of digits, the lowest first.
abbrev list_value : Bool → ℕ → List ℕ → ℕ
list_value uppercase radix [] = 0
list_value uppercase radix (c ∷ rest) =
    list_value uppercase radix rest * radix + digit_value uppercase c

-- The number in a text, the highest digit first.
abbrev pub text_value : Bool → ℕ → (ℕ → ℕ) → ℕ → ℕ → ℕ
text_value uppercase radix memory start zero = 0
text_value uppercase radix memory start (suc n) =
    text_value uppercase radix memory start n * radix + digit_value uppercase (memory (start + n))

-- The characters of the text are digits of the radix, with letters in the one case only.
abbrev pub AllDigits : Bool → ℕ → (ℕ → ℕ) → ℕ → ℕ → Type 0
AllDigits uppercase radix memory start zero = Unit
AllDigits uppercase radix memory start (suc n) =
    AllDigits uppercase radix memory start n × (digit_value uppercase (memory (start + n)) < radix)

abbrev ListDigits : Bool → ℕ → List ℕ → Type 0
ListDigits uppercase radix = All (λ (c : ℕ). digit_value uppercase c < radix)

digit_of-value :
    (uppercase : Bool) (n : ℕ) → n < 16 → digit_value uppercase (digit_of uppercase n) ≡ n
digit_of-value true n h = ground (arith, h)
digit_of-value false n h = ground (arith, h)

digits_of-value :
    (room radix : ℕ) (uppercase : Bool) (value : ℕ)
    → 2 ≤ radix
    → radix ≤ 16
    → value < radix ^ room
    → list_value uppercase radix (digits_of room radix uppercase value) ≡ value
unfolding digits_of
digits_of-value zero radix uppercase value low high h = omega (arith, pow-zero radix, h)
digits_of-value (suc room) radix uppercase value low high h =
    let positive : 0 < radix = omega (arith, low) in
    let bound : value < radix ^ room * radix = omega (arith, pow-suc radix room, h) in
    let smaller : value / radix < radix ^ room = (div-lt_iff_lt-mul positive).1 bound in
    let digit : digit_value uppercase (digit_of uppercase (value % radix)) ≡ value % radix =
      digit_of-value uppercase (value % radix) (omega (arith, mod-lt value positive, high)) in
    let rest = digits_of-value room radix uppercase (value / radix) low high smaller in
    elim (Bool-cases (value / radix == 0)) [
      | inl last ↦
          let zero_left : 0 ≡ value / radix = ground (arith, last) in
          rw (last, digit)
            (ap (λ (q : ℕ). q * radix + value % radix) zero_left ∙ div-add-mod' value radix)
      | inr more ↦ rw (more, digit, rest) (div-add-mod' value radix)
    ]

digits_of-ListDigits :
    (room radix : ℕ) (uppercase : Bool) (value : ℕ)
    → 2 ≤ radix
    → radix ≤ 16
    → ListDigits uppercase radix (digits_of room radix uppercase value)
unfolding digits_of
digits_of-ListDigits zero radix uppercase value low high = tt
digits_of-ListDigits (suc room) radix uppercase value low high =
    let positive : 0 < radix = omega (arith, low) in
    let below = mod-lt value positive in
    let digit : digit_value uppercase (digit_of uppercase (value % radix)) ≡ value % radix =
      digit_of-value uppercase (value % radix) (omega (arith, below, high)) in
    let first : digit_value uppercase (digit_of uppercase (value % radix)) < radix =
      omega (arith, digit, below) in
    elim (Bool-cases (value / radix == 0)) [
      | inl last ↦ rw last (first, tt)
      | inr more ↦
          rw more (first, digits_of-ListDigits room radix uppercase (value / radix) low high)
    ]

digits_of-length :
    (room radix : ℕ) (uppercase : Bool) (value : ℕ)
    → (0 < length (digits_of (suc room) radix uppercase value))
      × (length (digits_of (suc room) radix uppercase value) ≤ suc room)
unfolding digits_of
digits_of-length zero radix uppercase value = elim (Bool-cases (value / radix == 0)) [
  | inl last ↦ rw last (omega arith, omega arith)
  | inr more ↦ rw more (omega arith, omega arith)
]
digits_of-length (suc room) radix uppercase value =
    let (some_digit, few) = digits_of-length room radix uppercase (value / radix) in
    elim (Bool-cases (value / radix == 0)) [
      | inl last ↦ rw last (omega arith, omega arith)
      | inr more ↦ rw more (omega arith, omega (arith, few))
    ]

-- There is one digit, or the highest is not a zero that could be left out.
digits_of-shortest :
    (room radix : ℕ) (uppercase : Bool) (value : ℕ)
    → 2 ≤ radix
    → let n = length (digits_of (suc room) radix uppercase value) in
      (n ≡ 1) ⊎ (radix ^ (n - 1) ≤ value)
unfolding digits_of
digits_of-shortest zero radix uppercase value low = elim (Bool-cases (value / radix == 0)) [
  | inl last ↦ rw last (inl refl)
  | inr more ↦ rw more (inl refl)
]
digits_of-shortest (suc room) radix uppercase value low =
    let positive : 0 < radix = omega (arith, low) in
    let rest = digits_of (suc room) radix uppercase (value / radix) in
    let least = digits_of-length room radix uppercase (value / radix) in
    elim (Bool-cases (value / radix == 0)) [
      | inl last ↦ rw last (inl refl)
      | inr more ↦ rw more (elim (digits_of-shortest room radix uppercase (value / radix) low) [
        | inl one ↦
            let some_left : 1 ≤ value / radix = ground (arith, more) in
            let bound = (le-div_iff_mul-le positive).0 some_left in
            inr (rw (one, pow-suc radix 0, pow-zero radix) (omega (arith, bound)))
        | inr many ↦
            let bound = (le-div_iff_mul-le positive).0 many in
            let count : length rest ≡ suc (length rest - 1) = omega (arith, least.0) in
            let power : radix ^ length rest ≡ radix ^ (length rest - 1) * radix =
              ap (λ (k : ℕ). radix ^ k) count ∙ pow-suc radix (length rest - 1) in
            let minus : radix ^ (suc (length rest) - 1) ≡ radix ^ length rest =
              ap (λ (k : ℕ). radix ^ k) (omega arith) in
            inr (rw minus (omega (arith, power, bound)))
      ])
    ]

-- Bytes from `start + n` on do not change the number in the first `n`.
text_value-put :
    (uppercase : Bool) (radix : ℕ) (memory : ℕ → ℕ) (start n at value : ℕ)
    → start + n ≤ at
    → text_value uppercase radix (put at value memory) start n
      ≡ text_value uppercase radix memory start n
text_value-put uppercase radix memory start zero at value h = refl
text_value-put uppercase radix memory start (suc n) at value h =
    let other : (start + n == at) ≡ false = ground (arith, h) in
    rw (other, text_value-put uppercase radix memory start n at value (omega (arith, h))) refl

AllDigits-put :
    (uppercase : Bool) (radix : ℕ) (memory : ℕ → ℕ) (start n at value : ℕ)
    → start + n ≤ at
    → AllDigits uppercase radix memory start n
    → AllDigits uppercase radix (put at value memory) start n
AllDigits-put uppercase radix memory start zero at value h all = tt
AllDigits-put uppercase radix memory start (suc n) at value h all =
    let other : (start + n == at) ≡ false = ground (arith, h) in
    (
      AllDigits-put uppercase radix memory start n at value (omega (arith, h)) all.0,
      rw other (all.1),
    )

module _ (buffer size radix : ℕ) (uppercase : Bool) (real : truthy buffer ≡ true) where
  -- The digits have been appended to `t`.
  record Appended (digits : List ℕ) (t t' : Text) : Type 0 where
    pub offset : t'.offset ≡ t.offset + length digits
    pub value :
        text_value uppercase radix t'.memory (buffer + t.offset) (length digits)
        ≡ list_value uppercase radix digits
    pub all : AllDigits uppercase radix t'.memory (buffer + t.offset) (length digits)
    pub before : (a : ℕ) → a < buffer + t.offset → t'.memory a ≡ t.memory a

  append_digits-Appended :
      (digits : List ℕ) (t : Text)
      → ListDigits uppercase radix digits
      → t.offset + length digits < size
      → Appended digits t (append_digits buffer size digits t)
  unfolding append_char
  append_digits-Appended [] t valid h = record {
    all = tt;
    offset = omega arith;
    value = refl;
    before = λ a lt. refl;
  }
  append_digits-Appended (c ∷ rest) t valid h =
      let t1 = append_digits buffer size rest t in
      let r = append_digits-Appended rest t valid.1 (omega (arith, h)) in
      let room : (not (truthy buffer) || (size == 0 || leb (size - 1) t1.offset)) ≡ false =
        rw (real, r.offset) (ground (arith, h)) in
      let start = buffer + t.offset in
      let n = length rest in
      let written = put (buffer + t1.offset) c t1.memory in
      let full = put (buffer + (t1.offset + 1)) 0 written in
      let cell : full (start + n) ≡ c = ground (arith, r.offset) in
      let kept : text_value uppercase radix full start n
          ≡ text_value uppercase radix t1.memory start n =
        text_value-put uppercase radix written start n (buffer + (t1.offset + 1)) 0
          (omega (arith, r.offset))
        ∙ text_value-put uppercase radix t1.memory start n (buffer + t1.offset) c
            (omega (arith, r.offset)) in
      rw room (record {
        offset = omega (arith, r.offset);
        value =
            ap
              (λ (w : ℕ). text_value uppercase radix full start n * radix + digit_value uppercase w)
              cell
            ∙ ap (λ (v : ℕ). v * radix + digit_value uppercase c) (kept ∙ r.value);
        all = (
          AllDigits-put uppercase radix written start n (buffer + (t1.offset + 1)) 0
              (omega (arith, r.offset))
              (AllDigits-put uppercase radix t1.memory start n (buffer + t1.offset) c
                (omega (arith, r.offset)) r.all),
          rw cell (valid.0),
        );
        before = λ a lt. ground (arith, lt, r.offset, r.before a lt);
      })

-- `AppendUnsigned` with a radix from 4 to 16 and room for 32 more characters appends from 1 to 32 of
-- them. Each is a digit of the radix, `0` to `9` or a letter, in upper case just if that is asked for; read
-- with the highest digit first they are the number itself, without a leading zero unless it is the only
-- digit. The bytes before them are as before.
pub append_unsigned_lem :
    (buffer size value radix : ℕ) (uppercase : Bool) (t : Text)
    → truthy buffer ≡ true
    → 4 ≤ radix
    → radix ≤ 16
    → value < 2 ^ 64
    → t.offset + 32 < size
    → let t' = append_unsigned buffer size value radix uppercase t in
      (t.offset < t'.offset)
      × (t'.offset ≤ t.offset + 32)
      × (text_value uppercase radix t'.memory (buffer + t.offset) (t'.offset - t.offset) ≡ value)
      × AllDigits uppercase radix t'.memory (buffer + t.offset) (t'.offset - t.offset)
      × ((t'.offset - t.offset ≡ 1) ⊎ (radix ^ (t'.offset - t.offset - 1) ≤ value))
      × ((a : ℕ) → a < buffer + t.offset → t'.memory a ≡ t.memory a)
unfolding append_unsigned
append_unsigned_lem buffer size value radix uppercase t real low high bound room =
    let ds = digits_of 32 radix uppercase value in
    let (some_digit, few) = digits_of-length 31 radix uppercase value in
    let fine : (ltb radix 2 || ltb 16 radix) ≡ false = ground (arith, low, high) in
    let fits : value < radix ^ 32 = omega (arith, bound, pow-le-pow_left low 32) in
    let valid = digits_of-ListDigits 32 radix uppercase value (omega (arith, low)) high in
    let r =
      append_digits-Appended buffer size radix uppercase real ds t valid
        (omega (arith, few, room)) in
    let count : (append_digits buffer size ds t).offset - t.offset ≡ length ds =
      omega (arith, r.offset) in
    rw fine (
      omega (arith, r.offset, some_digit),
      omega (arith, r.offset, few),
      rw count (r.value ∙ digits_of-value 32 radix uppercase value (omega (arith, low)) high fits),
      rw count (r.all),
      rw count (digits_of-shortest 31 radix uppercase value (omega (arith, low))),
      r.before,
    )
