-- ===== src/ComLogger/Tests.antt =====
-- Messages at concrete inputs.
use nova_hypervisor.Base.{
  ℕ, ◌+◌, ◌-◌, ◌^◌, ◌⊎◌, ◌<◌, ◌≤◌, ◌≡◌, refl, true, false, List, [], ◌∷◌, some, arith,
}
use nova_hypervisor.ComLogger.{Text, format_message, append_unsigned}
use nova_hypervisor.ComLogger.Formats.{ends, in_text}
use nova_hypervisor.ComLogger.Bounds.{Returns, format_message-InBounds}
use nova_hypervisor.ComLogger.Digits.{text_value, AllDigits, append_unsigned_lem}

-- `CPU %08llx, 100%% of %s CR3`; the string of the argument is empty.
abbrev format : List ℕ
format =
    67 ∷ 80 ∷ 85 ∷ 32 ∷ 37 ∷ 48 ∷ 56 ∷ 108 ∷ 108 ∷ 120 ∷ 44 ∷ 32 ∷ 49 ∷ 48 ∷ 48 ∷ 37 ∷ 37 ∷ 32 ∷ 111
    ∷ 102 ∷ 32 ∷ 37 ∷ 115 ∷ 32 ∷ 67 ∷ 82 ∷ 51 ∷ []

ended : ends in_text format ≡ true
ended = refl

format_message-InBounds_example :
    Returns 4096 512
      (λ a. 0)
      (λ i. 8192)
      (format_message 4096 512 (λ i. 8192) (some format) (λ a. 0))
format_message-InBounds_example =
    format_message-InBounds 4096 512 (λ a. 0) (λ i. 8192) (some format) refl (omega arith) ended

abbrev empty : Text
empty = record { memory = λ a. 0; offset = 5; next = 0 }

append_unsigned_lem_example :
    (let t' = append_unsigned 4096 512 51966 16 false empty in
      (5 < t'.offset)
      × (t'.offset ≤ 5 + 32)
      × (text_value false 16 t'.memory (4096 + 5) (t'.offset - 5) ≡ 51966)
      × AllDigits false 16 t'.memory (4096 + 5) (t'.offset - 5)
      × ((t'.offset - 5 ≡ 1) ⊎ (16 ^ (t'.offset - 5 - 1) ≤ 51966))
      × ((a : ℕ) → a < 4096 + 5 → t'.memory a ≡ 0))
append_unsigned_lem_example =
    append_unsigned_lem 4096 512 51966 16 false empty refl (omega arith) (omega arith) (omega arith)
      (omega arith)
