-- ===== src/Base/Bits.antt =====
-- Bit fields of a machine word as division and remainder, and the masks that the source writes.
use Prim.Native.Nat.{ℕ, zero, suc, ◌+◌, ◌-◌, ◌*◌, ◌/◌, ◌%◌, ◌^◌, ◌≤◌, ◌<◌, min, max}
use Prim.Native.Nat.{bit_and, bit_or, digits, bit_and-bitwise, bit_or-bitwise}
use mathlib.Core.Path.{◌≡◌, refl, ap, ◌∙◌}
use native.Mathlib.Nat.{pow-suc, pow-succ', one-le-pow, div-div-eq-div-mul}
use native.Mathlib.Omega.{arith}

-- Both operations are one recursion on the binary digits, with fuel. Any fuel of at least the left
-- operand gives what the left operand itself gives as fuel.
module _ (edge : ℕ → ℕ) (digit : ℕ → ℕ → ℕ) where
  enough_digits :
      (limit fuel left right : ℕ)
      → fuel ≤ limit
      → left ≤ fuel
      → digits edge digit fuel left right ≡ digits edge digit left left right
  enough_digits limit zero zero right h le = refl
  enough_digits limit (suc fuel) zero right h le = refl
  enough_digits limit zero (suc left) right h le = absurd (omega arith)
  enough_digits zero (suc fuel) (suc left) right h le = absurd (omega arith)
  enough_digits (suc limit) (suc fuel) (suc left) right h le =
      let half = enough_digits limit fuel (suc left / 2) (right / 2) (omega arith) (omega arith) in
      let own = enough_digits limit left (suc left / 2) (right / 2) (omega arith) (omega arith) in
      omega (arith, half, own)

bit_and_zero_left : (b : ℕ) → bit_and 0 b ≡ 0
bit_and_zero_left b = bit_and-bitwise 0 b

bit_or_zero_left : (b : ℕ) → bit_or 0 b ≡ b
bit_or_zero_left b = bit_or-bitwise 0 b

pub bit_and_halves : (a b : ℕ) → bit_and a b ≡ bit_and (a / 2) (b / 2) * 2 + min (a % 2) (b % 2)
bit_and_halves zero b = omega (arith, bit_and_zero_left b, bit_and_zero_left (b / 2))
bit_and_halves (suc a) b = omega (
  arith,
  bit_and-bitwise (suc a) b,
  bit_and-bitwise (suc a / 2) (b / 2),
  enough_digits (λ b. 0) min a a (suc a / 2) (b / 2) (omega arith) (omega arith),
)

pub bit_or_halves : (a b : ℕ) → bit_or a b ≡ bit_or (a / 2) (b / 2) * 2 + max (a % 2) (b % 2)
bit_or_halves zero b = omega (arith, bit_or_zero_left b, bit_or_zero_left (b / 2))
bit_or_halves (suc a) b = omega (
  arith,
  bit_or-bitwise (suc a) b,
  bit_or-bitwise (suc a / 2) (b / 2),
  enough_digits (λ b. b) max a a (suc a / 2) (b / 2) (omega arith) (omega arith),
)

-- With nothing on the right, by recursion on a bound of the left operand.
bit_and_zero_bound : (n a : ℕ) → a ≤ n → bit_and a 0 ≡ 0
bit_and_zero_bound zero zero h = refl
bit_and_zero_bound zero (suc a) h = absurd (omega arith)
bit_and_zero_bound (suc n) a h =
    omega (arith, bit_and_halves a 0, bit_and_zero_bound n (a / 2) (omega arith))

bit_or_zero_bound : (n a : ℕ) → a ≤ n → bit_or a 0 ≡ a
bit_or_zero_bound zero zero h = refl
bit_or_zero_bound zero (suc a) h = absurd (omega arith)
bit_or_zero_bound (suc n) a h =
    omega (arith, bit_or_halves a 0, bit_or_zero_bound n (a / 2) (omega arith))

bit_and-zero : (a : ℕ) → bit_and a 0 ≡ 0
bit_and-zero a = bit_and_zero_bound a a (omega arith)

bit_or-zero : (a : ℕ) → bit_or a 0 ≡ a
bit_or-zero a = bit_or_zero_bound a a (omega arith)

bit_and_odd : (a m : ℕ) → bit_and a (m * 2 + 1) ≡ bit_and (a / 2) m * 2 + a % 2
bit_and_odd a m = ground (arith, bit_and_halves a (m * 2 + 1))

bit_and_even : (a m : ℕ) → bit_and a (m * 2) ≡ bit_and (a / 2) m * 2
bit_and_even a m = ground (arith, bit_and_halves a (m * 2))

-- A mask of `w` low ones keeps the remainder `r`.
bit_and_ones : (w q r : ℕ) → r < 2 ^ w → bit_and (q * 2 ^ w + r) (2 ^ w - 1) ≡ r
bit_and_ones zero q r h = omega (arith, bit_and-zero (q * 1 + r))
bit_and_ones (suc w) q r h = ground (
  arith,
  pow-suc 2 w,
  one-le-pow w 2,
  ap (λ (t : ℕ). q * t) (pow-suc 2 w),
  bit_and_odd (q * 2 ^ suc w + r) (2 ^ w - 1),
  bit_and_ones w q (r / 2) (omega (arith, pow-suc 2 w)),
)

pub bit_and_low : (w a : ℕ) → bit_and a (2 ^ w - 1) ≡ a % 2 ^ w
bit_and_low w a = ground (arith, one-le-pow w 2, bit_and_ones w (a / 2 ^ w) (a % 2 ^ w))

-- A mask that is shifted left by `s` acts on the word shifted right by `s`.
bit_and_shifted :
    (s q r m : ℕ) → r < 2 ^ s → bit_and (q * 2 ^ s + r) (m * 2 ^ s) ≡ bit_and q m * 2 ^ s
bit_and_shifted zero q r m h = ground arith
bit_and_shifted (suc s) q r m h = ground (
  arith,
  pow-suc 2 s,
  ap (λ (t : ℕ). q * t) (pow-suc 2 s),
  ap (λ (t : ℕ). m * t) (pow-suc 2 s),
  ap (λ (t : ℕ). bit_and q m * t) (pow-suc 2 s),
  bit_and_even (q * 2 ^ suc s + r) (m * 2 ^ s),
  bit_and_shifted s q (r / 2) m (omega (arith, pow-suc 2 s)),
)

pub bit_and_shift : (s a m : ℕ) → bit_and a (m * 2 ^ s) ≡ bit_and (a / 2 ^ s) m * 2 ^ s
bit_and_shift s a m = ground (arith, one-le-pow s 2, bit_and_shifted s (a / 2 ^ s) (a % 2 ^ s) m)

-- The field of `w` bits at position `s`, left in place.
pub bit_and_field : (s w a : ℕ) → bit_and a ((2 ^ w - 1) * 2 ^ s) ≡ a / 2 ^ s % 2 ^ w * 2 ^ s
bit_and_field s w a =
    bit_and_shift s a (2 ^ w - 1) ∙ ap (λ (t : ℕ). t * 2 ^ s) (bit_and_low w (a / 2 ^ s))

-- The one bit at position `s`.
pub bit_and_bit : (s a : ℕ) → bit_and a (2 ^ s) ≡ a / 2 ^ s % 2 * 2 ^ s
bit_and_bit s a = ground (arith, bit_and_field s 1 a)

bit_or_even : (a m : ℕ) → bit_or a (m * 2) ≡ bit_or (a / 2) m * 2 + a % 2
bit_or_even a m = ground (arith, bit_or_halves a (m * 2))

-- Setting the bit at position `s`.
pub bit_or_bit : (s a : ℕ) → bit_or a (2 ^ s) ≡ a + (1 - a / 2 ^ s % 2) * 2 ^ s
bit_or_bit zero a = ground (arith, bit_or_halves a 1, bit_or-zero (a / 2))
bit_or_bit (suc s) a = ground (
  arith,
  pow-suc 2 s,
  div-div-eq-div-mul a 2 (2 ^ s),
  ap (λ (t : ℕ). a / t) (pow-succ' 2 s),
  ap (λ (t : ℕ). (1 - a / 2 ^ suc s % 2) * t) (pow-suc 2 s),
  bit_or_even a (2 ^ s),
  bit_or_bit s (a / 2),
)

-- A mask whose low `w` bits are all set.
bit_and_low_split :
    (w q r h : ℕ)
    → r < 2 ^ w
    → bit_and (q * 2 ^ w + r) (h * 2 ^ w + (2 ^ w - 1)) ≡ bit_and q h * 2 ^ w + r
bit_and_low_split zero q r h p = ground arith
bit_and_low_split (suc w) q r h p = ground (
  arith,
  pow-suc 2 w,
  one-le-pow w 2,
  ap (λ (t : ℕ). q * t) (pow-suc 2 w),
  ap (λ (t : ℕ). h * t) (pow-suc 2 w),
  ap (λ (t : ℕ). bit_and q h * t) (pow-suc 2 w),
  bit_and_odd (q * 2 ^ suc w + r) (h * 2 ^ w + (2 ^ w - 1)),
  bit_and_low_split w q (r / 2) h (omega (arith, pow-suc 2 w)),
)

pub bit_and_low_part :
    (w a h : ℕ) → bit_and a (h * 2 ^ w + (2 ^ w - 1)) ≡ bit_and (a / 2 ^ w) h * 2 ^ w + a % 2 ^ w
bit_and_low_part w a h =
    ground (arith, one-le-pow w 2, bit_and_low_split w (a / 2 ^ w) (a % 2 ^ w) h)

bit_and_half : (a b : ℕ) → bit_and a b / 2 ≡ bit_and (a / 2) (b / 2)
bit_and_half a b = omega (arith, bit_and_halves a b)

bit_or_half : (a b : ℕ) → bit_or a b / 2 ≡ bit_or (a / 2) (b / 2)
bit_or_half a b = omega (arith, bit_or_halves a b)

-- The bit at position `i` of a conjunction and of a disjunction.
pub bit_and_test : (i a b : ℕ) → bit_and a b / 2 ^ i % 2 ≡ min (a / 2 ^ i % 2) (b / 2 ^ i % 2)
bit_and_test zero a b = ground (arith, bit_and_halves a b)
bit_and_test (suc i) a b = ground (
  arith,
  div-div-eq-div-mul a 2 (2 ^ i),
  div-div-eq-div-mul b 2 (2 ^ i),
  div-div-eq-div-mul (bit_and a b) 2 (2 ^ i),
  ap (λ (t : ℕ). a / t) (pow-succ' 2 i),
  ap (λ (t : ℕ). b / t) (pow-succ' 2 i),
  ap (λ (t : ℕ). bit_and a b / t) (pow-succ' 2 i),
  ap (λ (t : ℕ). t / 2 ^ i) (bit_and_half a b),
  bit_and_test i (a / 2) (b / 2),
)

pub bit_or_test : (i a b : ℕ) → bit_or a b / 2 ^ i % 2 ≡ max (a / 2 ^ i % 2) (b / 2 ^ i % 2)
bit_or_test zero a b = ground (arith, bit_or_halves a b)
bit_or_test (suc i) a b = ground (
  arith,
  div-div-eq-div-mul a 2 (2 ^ i),
  div-div-eq-div-mul b 2 (2 ^ i),
  div-div-eq-div-mul (bit_or a b) 2 (2 ^ i),
  ap (λ (t : ℕ). a / t) (pow-succ' 2 i),
  ap (λ (t : ℕ). b / t) (pow-succ' 2 i),
  ap (λ (t : ℕ). bit_or a b / t) (pow-succ' 2 i),
  ap (λ (t : ℕ). t / 2 ^ i) (bit_or_half a b),
  bit_or_test i (a / 2) (b / 2),
)

-- The bit at position `i` of the complement of a word of `n` bits.
pub complement_test :
    (n i a : ℕ) → i < n → a < 2 ^ n → (2 ^ n - 1 - a) / 2 ^ i % 2 ≡ 1 - a / 2 ^ i % 2
complement_test zero i a h l = absurd (omega arith)
complement_test (suc n) zero a h l = ground (arith, pow-suc 2 n)
complement_test (suc n) (suc i) a h l =
    let half : (2 ^ suc n - 1 - a) / 2 ≡ 2 ^ n - 1 - a / 2 = omega (arith, pow-suc 2 n) in
    ground (
      arith,
      div-div-eq-div-mul a 2 (2 ^ i),
      div-div-eq-div-mul (2 ^ suc n - 1 - a) 2 (2 ^ i),
      ap (λ (t : ℕ). a / t) (pow-succ' 2 i),
      ap (λ (t : ℕ). (2 ^ suc n - 1 - a) / t) (pow-succ' 2 i),
      ap (λ (t : ℕ). t / 2 ^ i) half,
      complement_test n i (a / 2) (omega arith) (omega (arith, pow-suc 2 n)),
    )
