-- ===== src/ComLogger/Bounds.antt =====
-- The messages of NovaHypervisor/ComLogger.cpp stay in their buffer.
use nova_hypervisor.Base.{
  ℕ, zero, suc, ◌+◌, ◌-◌, ◌^◌, ◌<◌, ◌≤◌, ◌≡◌, ◌⊎◌, ◌∙◌, refl, ap, sym, inl, inr, Bool, true, false,
  not, ◌&&◌, ◌||◌, ◌==◌, ◌!=◌, ltb, leb, truthy, if◌then◌else◌, List, [], ◌∷◌, Option, none, some,
  length, arith, Bool-cases,
}
use nova_hypervisor.Ept.Hooks.{put}
use nova_hypervisor.ComLogger.Formats.{
  Place, in_text, in_digits, is_in_text, ends, EndedFormat, skip_digits-Conversion, lengths_of-Left,
  text_plain, text_percent, percent_twice, percent_other,
}
use nova_hypervisor.ComLogger.{
  Text, lengths_of, append_char, append_literal, append_from, append_string, append_digits,
  conversion, null_text, hex_prefix, null_format, append_unsigned, append_signed, convert,
  directive, format_rounds, format_message,
}

module _ (buffer size : ℕ) (before : ℕ → ℕ) where
  -- The message ends with a zero in the buffer, and no byte outside of the buffer is changed.
  pub record InBounds (t : Text) : Type 0 where
    pub below : t.offset < size
    pub ended : t.memory (buffer + t.offset) ≡ 0
    pub kept : (a : ℕ) → (a < buffer) ⊎ (buffer + size ≤ a) → t.memory a ≡ before a

  append_char-InBounds :
      (value : ℕ) (t : Text) → InBounds t → InBounds (append_char buffer size value t)
  unfolding append_char
  append_char-InBounds value t b =
      elim (Bool-cases (not (truthy buffer) || (size == 0 || leb (size - 1) t.offset))) [
        | inl full ↦ rw full b
        | inr room ↦ rw room (record {
          below = ground (arith, room, b.below);
          ended = ground arith;
          kept = λ a outside. ground (arith, room, outside, b.kept a outside);
        })
      ]

  append_literal-InBounds :
      (text : List ℕ) (t : Text) → InBounds t → InBounds (append_literal buffer size text t)
  append_literal-InBounds [] t b = b
  append_literal-InBounds (c ∷ rest) t b =
      append_literal-InBounds rest (append_char buffer size c t) (append_char-InBounds c t b)

  append_digits-InBounds :
      (digits : List ℕ) (t : Text) → InBounds t → InBounds (append_digits buffer size digits t)
  append_digits-InBounds [] t b = b
  append_digits-InBounds (c ∷ rest) t b =
      append_char-InBounds c (append_digits buffer size rest t) (append_digits-InBounds rest t b)

  append_from-InBounds :
      (value left index : ℕ) (t : Text)
      → InBounds t
      → InBounds (append_from buffer size value left index t)
  append_from-InBounds value zero index t b = b
  append_from-InBounds value (suc left) index t b =
      let c = t.memory (value + index) in
      elim (Bool-cases (c == 0)) [
        | inl end ↦ rw end b
        | inr more ↦ rw more (
            append_from-InBounds value left (suc index) (append_char buffer size c t)
              (append_char-InBounds c t b))
      ]

  if-InBounds :
      (test : Bool) (x y : Text) → InBounds x → InBounds y → InBounds (if test then x else y)
  if-InBounds true x y bx by = bx
  if-InBounds false x y bx by = by

  append_string-InBounds :
      (value maximum : ℕ) (t : Text)
      → InBounds t
      → InBounds (append_string buffer size value maximum t)
  unfolding append_string
  append_string-InBounds value maximum t b =
      if-InBounds (not (truthy value)) _ _ (append_literal-InBounds null_text t b)
        (append_from-InBounds value maximum 0 t b)

  append_unsigned-InBounds :
      (value radix : ℕ) (uppercase : Bool) (t : Text)
      → InBounds t
      → InBounds (append_unsigned buffer size value radix uppercase t)
  unfolding append_unsigned
  append_unsigned-InBounds value radix uppercase t b =
      if-InBounds (ltb radix 2 || ltb 16 radix) t _ b (append_digits-InBounds _ t b)

  append_signed-InBounds :
      (value : ℕ) (t : Text) → InBounds t → InBounds (append_signed buffer size value t)
  unfolding append_signed
  append_signed-InBounds value t b =
      if-InBounds (leb (2 ^ 63) value) _ _
        (append_unsigned-InBounds _ 10 false _ (append_char-InBounds 45 t b))
        (append_unsigned-InBounds value 10 false t b)

  module _ (args : ℕ → ℕ) where
    -- The count of the arguments is no part of the message.
    counted : (t : Text) → InBounds t → InBounds (record t { next = t.next + 1 })
    counted t b = record { below = b.below; ended = b.ended; kept = b.kept }

    convert-InBounds :
        (long long_long : Bool) (c : ℕ) (t : Text)
        → InBounds t
        → InBounds (convert buffer size args long long_long c t)
    unfolding convert
    convert-InBounds long long_long c t b =
        let b' = counted t b in
        let percent = append_char-InBounds 37 t b in
        let one = if-InBounds long _ _ (append_char-InBounds 108 _ percent) percent in
        let two = if-InBounds (long && long_long) _ _ (append_char-InBounds 108 _ one) one in
        if-InBounds (c == 100 || c == 105) _ _ (append_signed-InBounds _ _ b') (
          if-InBounds (c == 117) _ _ (append_unsigned-InBounds _ 10 false _ b') (
            if-InBounds (c == 120) _ _ (append_unsigned-InBounds _ 16 false _ b') (
              if-InBounds (c == 88) _ _ (append_unsigned-InBounds _ 16 true _ b') (
                if-InBounds (c == 112) _ _
                  (append_unsigned-InBounds _ 16 false _ (append_literal-InBounds hex_prefix _ b'))
                  (if-InBounds (c == 115) _ _ (append_string-InBounds _ _ _ b')
                    (append_char-InBounds c _ two))))))

    -- A conversion that is in the format leaves a shorter rest, and a message in its bounds.
    abbrev Goes : ℕ → Option (List ℕ × Text) → Type 0
    Goes n result =
        (rest : List ℕ) × (t : Text) × (result ≡ some (rest, t))
        × (length rest ≤ n)
        × (ends in_text rest ≡ true)
        × InBounds t

    directive-Goes :
        (c : ℕ) (rest : List ℕ) (t : Text)
        → ends in_digits (c ∷ rest) ≡ true
        → InBounds t
        → Goes (length rest) (directive buffer size args (c ∷ rest) t)
    unfolding directive
    directive-Goes c rest t ended b =
        let (d, rest1, eq1, plain, ended1, le1) = skip_digits-Conversion c rest ended in
        let (e, rest2, eq2, ended2, le2) = lengths_of-Left d rest1 plain ended1 in
        let (long, long_long, chars) = lengths_of (d ∷ rest1) in
        let passed : Bool × Bool × List ℕ → Option (List ℕ × Text) =
          λ x. conversion buffer size args x.0 x.1 x.2 t in
        (
          rest2,
          convert buffer size args long long_long e t,
          ap (λ (l : List ℕ). passed (lengths_of l)) eq1
              ∙ ap (λ (l : List ℕ). conversion buffer size args long long_long l t) eq2,
          omega (arith, le1, le2),
          ended2,
          convert-InBounds long long_long e t b,
        )

    -- The loop comes to the end of the format.
    abbrev pub Returns : Option Text → Type 0
    Returns result = (t : Text) × (result ≡ some t) × InBounds t

    format_rounds-Returns :
        (fuel : ℕ) (chars : List ℕ) (t : Text)
        → length chars ≤ fuel
        → ends in_text chars ≡ true
        → InBounds t
        → Returns (format_rounds buffer size args fuel chars t)
    unfolding format_rounds
    format_rounds-Returns fuel [] t le ended b = (t, refl, b)
    format_rounds-Returns zero (c ∷ rest) t le ended b = absurd (omega (arith, le))
    format_rounds-Returns (suc fuel) (c ∷ []) t le ended b = elim (Bool-cases (c == 37)) [
      | inl percent ↦ let cut = ap is_in_text (sym (text_percent c percent)) ∙ ended in absurd (cc)
      | inr plain ↦ (append_char buffer size c t, rw plain refl, append_char-InBounds c t b)
    ]
    format_rounds-Returns (suc fuel) (c ∷ d ∷ rest) t le ended b = elim (Bool-cases (c == 37)) [
      | inr other ↦
          let plain : (c != 37) ≡ true = ground (arith, other) in
          let later = ap (λ (q : Place). ends q (d ∷ rest)) (sym (text_plain c other)) ∙ ended in
          let (t', eq, b') =
            format_rounds-Returns fuel (d ∷ rest) (append_char buffer size c t) (omega (arith, le))
              later (append_char-InBounds c t b) in
          (t', rw plain eq, b')
      | inl same ↦
          let percent : (c != 37) ≡ false = ground (arith, same) in
          let behind = ap (λ (q : Place). ends q (d ∷ rest)) (sym (text_percent c same)) ∙ ended in
          elim (Bool-cases (d == 37)) [
            | inl twice ↦
                let later =
                  ap (λ (q : Place). ends q rest) (sym (percent_twice d twice)) ∙ behind in
                let (t', eq, b') =
                  format_rounds-Returns fuel rest (append_char buffer size 37 t) (omega (arith, le))
                    later (append_char-InBounds 37 t b) in
                (t', rw (percent, twice) eq, b')
            | inr conversion ↦
                let asked =
                  ap (λ (q : Place). ends q rest) (sym (percent_other d conversion)) ∙ behind in
                let (rest', t1, step, shorter, ended', b1) = directive-Goes d rest t asked b in
                let (t', eq, b') =
                  format_rounds-Returns fuel rest' t1 (omega (arith, le, shorter)) ended' b1 in
                (t', rw (percent, conversion, step) eq, b')
          ]
    ]

    -- The start of the loop.
    cleared-InBounds :
        0 < size → InBounds (record { memory = put buffer 0 before; offset = 0; next = 0 })
    cleared-InBounds room = record {
      below = room;
      ended = ground arith;
      kept = λ a outside. ground (arith, room, outside);
    }

    -- `FormatMessage` on a format that is null or does not end in the middle of a conversion returns. The
    -- message is shorter than the buffer and ends with a zero in it, and no byte outside of the buffer is
    -- changed, whatever the arguments are.
    pub format_message-InBounds :
        (format : Option (List ℕ))
        → truthy buffer ≡ true
        → 0 < size
        → EndedFormat format
        → Returns (format_message buffer size args format before)
    unfolding format_message
    format_message-InBounds none real room ended =
        let empty : (size == 0) ≡ false = ground (arith, room) in
        (
          append_literal buffer size null_format
              (record { memory = put buffer 0 before; offset = 0; next = 0 }),
          rw (real, empty) refl,
          append_literal-InBounds null_format _ (cleared-InBounds room),
        )
    format_message-InBounds (some chars) real room ended =
        let empty : (size == 0) ≡ false = ground (arith, room) in
        let (t, eq, b) =
          format_rounds-Returns (length chars) chars
            (record { memory = put buffer 0 before; offset = 0; next = 0 }) (omega arith) ended
            (cleared-InBounds room) in
        (t, rw (real, empty) eq, b)
