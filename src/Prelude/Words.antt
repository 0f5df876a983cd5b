-- ===== src/Prelude/Words.antt =====
-- 32-bit words of the i386 target: an `int` is the bit pattern of its two's complement.
use Prim.Native.Nat.{ℕ, zero, suc, ◌+◌, ◌-◌, ◌*◌, ◌/◌, ◌%◌, ◌^◌, ◌<◌, ◌≤◌}
use mathlib.Core.Bool.{Bool, true, false}
use mathlib.Core.Path.{◌≡◌, refl}
use native.Mathlib.Omega.{arith}
use n00b_os.Prelude.Tests.{ltb, leb}

-- What is left of a number in 32 bits.
abbrev pub u32 : ℕ → ℕ
u32 n = n % 2 ^ 32

-- `a + b`, `a - b` and `a * b` of 32-bit words.
abbrev pub add32 : ℕ → ℕ → ℕ
add32 a b = (a + b) % 2 ^ 32

abbrev pub sub32 : ℕ → ℕ → ℕ
sub32 a b = (a + 2 ^ 32 - b) % 2 ^ 32

abbrev pub mul32 : ℕ → ℕ → ℕ
mul32 a b = (a * b) % 2 ^ 32

-- The pattern of the `int` -n, for 0 < n ≤ 2 ^ 31.
abbrev pub neg32 : ℕ → ℕ
neg32 n = 2 ^ 32 - n

-- `w < 0` for an `int`.
unfoldable pub is_neg : ℕ → Bool
is_neg w = leb (2 ^ 31) w

-- `a < b` for two `int`s.
unfoldable pub slt : ℕ → ℕ → Bool
slt a b = ltb ((a + 2 ^ 31) % 2 ^ 32) ((b + 2 ^ 31) % 2 ^ 32)

-- A (signed) `char` as an `int`.
unfoldable pub sign_extend : ℕ → ℕ
sign_extend c = elim (ltb c 128) [ true ↦ c | false ↦ c + (2 ^ 32 - 256) ]

-- `a / b` and `a % b` of an `int` by a positive one: towards zero.
unfoldable pub sdiv : ℕ → ℕ → ℕ
unfolding is_neg
sdiv a b = elim (is_neg a) [ true ↦ (2 ^ 32 - (2 ^ 32 - a) / b) % 2 ^ 32 | false ↦ a / b ]

unfoldable pub smod : ℕ → ℕ → ℕ
unfolding is_neg
smod a b = elim (is_neg a) [ true ↦ (2 ^ 32 - (2 ^ 32 - a) % b) % 2 ^ 32 | false ↦ a % b ]

-- The rounds of `for (int idx = 0; idx < n; ++idx)`.
unfoldable pub rounds : ℕ → ℕ
unfolding is_neg
rounds n = elim (is_neg n) [ true ↦ 0 | false ↦ n ]

-- On numbers below 2 ^ 31 the signed operations are the plain ones.
pub is_neg_small : (w : ℕ) → w < 2 ^ 31 → is_neg w ≡ false
unfolding is_neg
is_neg_small w h = ground arith

pub is_neg_large : (w : ℕ) → 2 ^ 31 ≤ w → is_neg w ≡ true
unfolding is_neg
is_neg_large w h = ground arith

pub slt_small : (a b : ℕ) → a < 2 ^ 31 → b < 2 ^ 31 → slt a b ≡ ltb a b
unfolding slt
slt_small a b h k = ground arith

pub sdiv_small : (a b : ℕ) → a < 2 ^ 31 → sdiv a b ≡ a / b
unfolding sdiv
sdiv_small a b h = ground arith

pub smod_small : (a b : ℕ) → a < 2 ^ 31 → smod a b ≡ a % b
unfolding smod
smod_small a b h = ground arith

pub rounds_small : (n : ℕ) → n < 2 ^ 31 → rounds n ≡ n
unfolding rounds
rounds_small n h = ground arith

pub zero_div : (n : ℕ) → 0 / n ≡ 0
zero_div zero = refl
zero_div (suc n) = omega arith

pub zero_mod : (n : ℕ) → 0 % n ≡ 0
zero_mod zero = refl
zero_mod (suc n) = omega arith
