-- ===== src/Prelude/Bits.antt =====
-- Laws of `bit_or` and `bit_and` for masks and fields: a number is taken apart one binary digit at a
-- time, by the recursion that the native operations stand for.
use Prim.Native.Nat.{
  ℕ, zero, suc, ◌+◌, ◌*◌, ◌/◌, ◌%◌, ◌≤◌, ◌<◌, min, max, bit_and, bit_or, digits, bit_and-bitwise,
  bit_or-bitwise,
}
use mathlib.Core.Path.{◌≡◌, refl, ◌∙◌, sym}
use native.Mathlib.Omega.{arith}

module _ (rest : ℕ → ℕ) (op : ℕ → ℕ → ℕ) where
  digits-zero : (fuel b : ℕ) → digits rest op fuel 0 b ≡ rest b
  digits-zero zero b = refl
  digits-zero (suc fuel) b = refl

  -- Fuel beyond the first number changes nothing.
  digits_enough :
      (fuel more a b : ℕ)
      → a ≤ fuel
      → fuel ≤ more
      → digits rest op more a b ≡ digits rest op fuel a b
  digits_enough fuel more zero b le le' = digits-zero more b ∙ sym (digits-zero fuel b)
  digits_enough zero more (suc a) b le le' = absurd (omega arith)
  digits_enough (suc fuel) zero (suc a) b le le' = absurd (omega arith)
  digits_enough (suc fuel) (suc more) (suc a) b le le' =
      omega (arith, digits_enough fuel more (suc a / 2) (b / 2) (omega arith) (omega arith))

-- The lowest digit of a disjunction and of a conjunction.
or_digit : (a b : ℕ) → bit_or a b ≡ bit_or (a / 2) (b / 2) * 2 + max (a % 2) (b % 2)
or_digit zero b = omega (arith, bit_or-bitwise 0 b, bit_or-bitwise 0 (b / 2))
or_digit (suc a) b =
    let half = suc a / 2 in
    omega (
      arith,
      bit_or-bitwise (suc a) b,
      bit_or-bitwise half (b / 2),
      digits_enough (λ y. y) max half a half (b / 2) (omega arith) (omega arith),
    )

and_digit : (a b : ℕ) → bit_and a b ≡ bit_and (a / 2) (b / 2) * 2 + min (a % 2) (b % 2)
and_digit zero b = omega (arith, bit_and-bitwise 0 b, bit_and-bitwise 0 (b / 2))
and_digit (suc a) b =
    let half = suc a / 2 in
    omega (
      arith,
      bit_and-bitwise (suc a) b,
      bit_and-bitwise half (b / 2),
      digits_enough (λ y. 0) min half a half (b / 2) (omega arith) (omega arith),
    )

-- q * 2 ^ k, the number of k ones, and a / 2 ^ k, each by doubling, so that they compute to what
-- `omega` reads at a numeral k.
abbrev pub shift_left : ℕ → ℕ → ℕ
shift_left zero q = q
shift_left (suc k) q = 2 * shift_left k q

abbrev pub ones : ℕ → ℕ
ones zero = 0
ones (suc k) = 2 * ones k + 1

abbrev pub shift_right : ℕ → ℕ → ℕ
shift_right zero a = a
shift_right (suc k) a = shift_right k (a / 2)

bit_or-zero_fuel : (n a : ℕ) → a ≤ n → bit_or a 0 ≡ a
bit_or-zero_fuel n zero h = refl
bit_or-zero_fuel zero (suc a) h = absurd (omega arith)
bit_or-zero_fuel (suc n) (suc a) h =
    omega (arith, or_digit (suc a) 0, bit_or-zero_fuel n (suc a / 2) (omega arith))

-- A number of k bits beside one that is shifted past them: the disjunction is the sum.
pub bit_or_field : (k q r : ℕ) → r < shift_left k 1 → bit_or (shift_left k q) r ≡ shift_left k q + r
bit_or_field zero q r small =
    let none_left : r ≡ 0 = omega arith in
    rw none_left (bit_or-zero_fuel q q (omega arith) ∙ omega arith)
bit_or_field (suc k) q r small =
    ground (arith, or_digit (2 * shift_left k q) r, bit_or_field k q (r / 2) (omega arith))

zero-bit_or_fuel : (n a : ℕ) → a ≤ n → bit_or 0 a ≡ a
zero-bit_or_fuel n zero h = refl
zero-bit_or_fuel zero (suc a) h = absurd (omega arith)
zero-bit_or_fuel (suc n) (suc a) h =
    omega (arith, or_digit 0 (suc a), zero-bit_or_fuel n (suc a / 2) (omega arith))

pub field_bit_or : (k q r : ℕ) → r < shift_left k 1 → bit_or r (shift_left k q) ≡ shift_left k q + r
field_bit_or zero q r small =
    let none_left : r ≡ 0 = omega arith in
    rw none_left (zero-bit_or_fuel q q (omega arith) ∙ omega arith)
field_bit_or (suc k) q r small =
    ground (arith, or_digit r (2 * shift_left k q), field_bit_or k q (r / 2) (omega arith))

pub bit_or_low :
    (k q r t : ℕ)
    → r < shift_left k 1
    → t < shift_left k 1
    → (bit_or (shift_left k q + r) t ≡ shift_left k q + bit_or r t) × (bit_or r t < shift_left k 1)
bit_or_low zero q r t small_r small_t =
    let no_r : r ≡ 0 = omega arith in
    let no_t : t ≡ 0 = omega arith in
    rw (no_r, no_t) (omega (arith, bit_or-zero_fuel (q + 0) (q + 0) (omega arith)), omega arith)
bit_or_low (suc k) q r t small_r small_t =
    let below = bit_or_low k q (r / 2) (t / 2) (omega arith) (omega arith) in
    let half : (2 * shift_left k q + r) / 2 ≡ shift_left k q + r / 2 = omega arith in
    let digits_q = rw half at (or_digit (2 * shift_left k q + r) t) in
    ground (arith, digits_q, or_digit r t, below)

-- All k bits of a number of k bits.
pub bit_and-ones : (k a : ℕ) → a < shift_left k 1 → bit_and a (ones k) ≡ a
bit_and-ones zero a small = let none_left : a ≡ 0 = omega arith in rw none_left refl
bit_and-ones (suc k) a small =
    ground (arith, and_digit a (2 * ones k + 1), bit_and-ones k (a / 2) (omega arith))

-- A mask whose k low bits are clear.
pub bit_and_high :
    (k a mask : ℕ) → bit_and a (shift_left k mask) ≡ shift_left k (bit_and (shift_right k a) mask)
bit_and_high zero a mask = refl
bit_and_high (suc k) a mask =
    ground (arith, and_digit a (2 * shift_left k mask), bit_and_high k (a / 2) mask)

-- The k lowest bits of a number, by halving.
abbrev pub low_bits : ℕ → ℕ → ℕ
low_bits zero a = 0
low_bits (suc k) a = low_bits k (a / 2) * 2 + a % 2

bit_and_null : (a : ℕ) → bit_and a 0 ≡ 0
bit_and_null zero = refl
bit_and_null (suc a) = bit_and_null_fuel (suc a) (suc a) (omega arith)
  where
    bit_and_null_fuel : (n a : ℕ) → a ≤ n → bit_and a 0 ≡ 0
    bit_and_null_fuel n zero le = refl
    bit_and_null_fuel zero (suc a) le = absurd (omega arith)
    bit_and_null_fuel (suc n) (suc a) le =
        omega (arith, and_digit (suc a) 0, bit_and_null_fuel n (suc a / 2) (omega arith))

pub bit_and-low_bits : (k a : ℕ) → bit_and a (ones k) ≡ low_bits k a
bit_and-low_bits zero a = bit_and_null a
bit_and-low_bits (suc k) a =
    ground (arith, and_digit a (2 * ones k + 1), bit_and-low_bits k (a / 2))

pub bit_and-one : (a : ℕ) → bit_and a 1 ≡ a % 2
bit_and-one a = bit_and-low_bits 1 a ∙ omega arith

pub bit_or_parity : (a b : ℕ) → bit_or a b % 2 ≡ max (a % 2) (b % 2)
bit_or_parity a b = omega (arith, or_digit a b)
