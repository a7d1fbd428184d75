-- ===== src/ComLogger.antt =====
-- NovaHypervisor/ComLogger.cpp: how a message for the serial port is put together. Memory is a function
-- from addresses to bytes; a format is the list of its characters up to the terminating zero, and the
-- arguments are the slots of 8 bytes that `va_arg` reads one after the other.
pub mod Formats
pub mod Bounds
pub mod Digits
mod Tests
use nova_hypervisor.Base.{
  ℕ, zero, suc, ◌+◌, ◌-◌, ◌/◌, ◌%◌, ◌^◌, Bool, true, false, not, ◌&&◌, ◌||◌, ◌==◌, ◌!=◌, ltb, leb,
  truthy, if◌then◌else◌, List, [], ◌∷◌, Option, none, some, length,
}
use nova_hypervisor.Ept.Hooks.{put}

-- Memory, the offset in the buffer, and the number of the next argument.
pub record Text : Type 0 where
  pub memory : ℕ → ℕ
  pub offset : ℕ
  pub next : ℕ

-- `MessageBufferSize`.
abbrev pub message_buffer_size : ℕ
message_buffer_size = 512

-- `(null)`, `0x` and `null log format string`.
abbrev pub null_text : List ℕ
null_text = 40 ∷ 110 ∷ 117 ∷ 108 ∷ 108 ∷ 41 ∷ []

abbrev pub hex_prefix : List ℕ
hex_prefix = 48 ∷ 120 ∷ []

abbrev pub null_format : List ℕ
null_format =
    110 ∷ 117 ∷ 108 ∷ 108 ∷ 32 ∷ 108 ∷ 111 ∷ 103 ∷ 32 ∷ 102 ∷ 111 ∷ 114 ∷ 109 ∷ 97 ∷ 116 ∷ 32 ∷ 115
    ∷ 116 ∷ 114 ∷ 105 ∷ 110 ∷ 103 ∷ []

-- A character of `HexDigits`, in upper case if it is asked for.
abbrev pub digit_of : Bool → ℕ → ℕ
digit_of uppercase n = if ltb n 10 then 48 + n else if uppercase then 55 + n else 87 + n

-- The array `digits`, the lowest digit first; the first argument is the room that it has left.
unfoldable pub digits_of : ℕ → ℕ → Bool → ℕ → List ℕ
digits_of zero radix uppercase value = []
digits_of (suc room) radix uppercase value =
    let rest = digits_of room radix uppercase (value / radix) in
    digit_of uppercase (value % radix) ∷ (if value / radix == 0 then [] else rest)

-- The decimal digits that follow a percent sign.
abbrev pub is_digit : ℕ → Bool
is_digit c = leb 48 c && leb c 57

abbrev pub skip_digits : List ℕ → List ℕ
skip_digits [] = []
skip_digits (c ∷ rest) = if is_digit c then skip_digits rest else c ∷ rest

-- The `l` and `ll` before a conversion: whether there is one, whether there are two, and the rest.
abbrev pub lengths_of : List ℕ → Bool × Bool × List ℕ
lengths_of [] = (false, false, [])
lengths_of (c ∷ []) = if c == 108 then (true, false, []) else (false, false, c ∷ [])
lengths_of (c ∷ d ∷ rest) =
    if c == 108
    then if d == 108 then (true, true, rest) else (true, false, d ∷ rest)
    else (false, false, c ∷ d ∷ rest)

-- An argument of type `INT64`, or one of type `int` or `long`, which have 32 bits, as an `INT64`.
abbrev pub signed_argument : Bool → ℕ → ℕ
signed_argument long_long word =
    let low = word % 2 ^ 32 in
    if long_long then word % 2 ^ 64 else if ltb low (2 ^ 31) then low else low + 2 ^ 64 - 2 ^ 32

abbrev pub unsigned_argument : Bool → ℕ → ℕ
unsigned_argument long_long word = if long_long then word % 2 ^ 64 else word % 2 ^ 32

module _ (buffer size : ℕ) where
  unfoldable pub append_char : ℕ → Text → Text
  append_char value t =
      if not (truthy buffer) || (size == 0 || leb (size - 1) t.offset) then t else record t {
        memory = put (buffer + (t.offset + 1)) 0 (put (buffer + t.offset) value t.memory);
        offset = t.offset + 1;
      }

  -- `AppendString` on a literal, which is no longer than its maximum.
  abbrev pub append_literal : List ℕ → Text → Text
  append_literal [] t = t
  append_literal (c ∷ rest) t = append_literal rest (append_char c t)

  -- The loop of `AppendString` on the string at `value`, from `index` on, with `left` to the maximum.
  abbrev pub append_from : ℕ → ℕ → ℕ → Text → Text
  append_from value zero index t = t
  append_from value (suc left) index t =
      let c = t.memory (value + index) in
      let rest = append_from value left (suc index) (append_char c t) in if c == 0 then t else rest

  unfoldable pub append_string : ℕ → ℕ → Text → Text
  append_string value maximum t =
      if not (truthy value) then append_literal null_text t else append_from value maximum 0 t

  -- The second loop of `AppendUnsigned`, from the last digit to the first.
  abbrev pub append_digits : List ℕ → Text → Text
  append_digits [] t = t
  append_digits (c ∷ rest) t = append_char c (append_digits rest t)

  unfoldable pub append_unsigned : ℕ → ℕ → Bool → Text → Text
  append_unsigned value radix uppercase t =
      if ltb radix 2 || ltb 16 radix
      then t
      else append_digits (digits_of 32 radix uppercase value) t

  -- `value` is the word of an `INT64`.
  unfoldable pub append_signed : ℕ → Text → Text
  append_signed value t =
      if leb (2 ^ 63) value
      then append_unsigned ((2 ^ 64 - value) % 2 ^ 64) 10 false (append_char 45 t)
      else append_unsigned value 10 false t

  module _ (args : ℕ → ℕ) where
    abbrev argument : (ℕ → Text → Text) → Text → Text
    argument append t = append (args t.next) (record t { next = t.next + 1 })

    -- The switch on the conversion.
    unfoldable pub convert : Bool → Bool → ℕ → Text → Text
    convert long long_long c t =
        if c == 100 || c == 105
        then argument (λ word. append_signed (signed_argument long_long word)) t
        else if c == 117
        then argument (λ word. append_unsigned (unsigned_argument long_long word) 10 false) t
        else if c == 120
        then argument (λ word. append_unsigned (unsigned_argument long_long word) 16 false) t
        else if c == 88
        then argument (λ word. append_unsigned (unsigned_argument long_long word) 16 true) t
        else if c == 112
        then argument
            (λ word t'. append_unsigned (word % 2 ^ 64) 16 false (append_literal hex_prefix t')) t
        else if c == 115
        then argument (λ word. append_string (word % 2 ^ 64) message_buffer_size) t
        else let percent = append_char 37 t in
          let one = if long then append_char 108 percent else percent in
          let two = if long && long_long then append_char 108 one else one in append_char c two

    -- `none` is a round that ends at the terminating zero: the loop then steps over it and reads on behind
    -- the format.
    abbrev pub conversion : Bool → Bool → List ℕ → Text → Option (List ℕ × Text)
    conversion long long_long [] t = none
    conversion long long_long (c ∷ rest) t = some (rest, convert long long_long c t)

    -- What follows a percent sign, and the rest of the format.
    unfoldable pub directive : List ℕ → Text → Option (List ℕ × Text)
    directive chars t =
        let (long, long_long, rest) = lengths_of (skip_digits chars) in
        conversion long long_long rest t

    -- The loop of `FormatMessage`; each round takes a character at least, so the length of the format is
    -- enough fuel.
    unfoldable pub format_rounds : ℕ → List ℕ → Text → Option Text
    format_rounds fuel [] t = some t
    format_rounds zero (c ∷ rest) t = none
    format_rounds (suc fuel) (c ∷ []) t =
        if c == 37 then none else format_rounds fuel [] (append_char c t)
    format_rounds (suc fuel) (c ∷ d ∷ rest) t =
        let plain = format_rounds fuel (d ∷ rest) (append_char c t) in
        let percent = format_rounds fuel rest (append_char 37 t) in
        if c != 37 then plain else if d == 37 then percent else elim (directive (d ∷ rest) t) [
          | none ↦ none
          | some (rest', t') ↦ format_rounds fuel rest' t'
        ]

    -- A format that is null is `none`.
    unfoldable pub format_message : Option (List ℕ) → (ℕ → ℕ) → Option Text
    format_message format memory =
        let t : Text = record { memory = memory; offset = 0; next = 0 } in
        let cleared : Text = record t { memory = put buffer 0 memory } in
        if not (truthy buffer) || size == 0 then some t else elim format [
          | none ↦ some (append_literal null_format cleared)
          | some chars ↦ format_rounds (length chars) chars cleared
        ]
