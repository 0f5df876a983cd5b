-- ===== src/Libc/Stdlib/Decimal/Digits.antt =====
-- The digits of a number, and the loop by which atoi of kernel/libc/stdlib.cpp reads them.
use native.Mathlib.Nat.{mul-add, mul_assoc}
use n00b_os.Prelude.{
  ℕ, zero, suc, ◌+◌, ◌-◌, ◌*◌, ◌/◌, ◌%◌, ◌^◌, ◌<◌, ◌≤◌, ◌≡◌, ap, ◌∙◌, dec_lt, add32, sub32, mul32,
  sign_extend, arith,
}
use n00b_os.Libc.Strings.{Str}
use n00b_os.Libc.Stdlib.{atoi_loop}

-- What is left of a number without its `i` last digits.
abbrev pub drop : ℕ → ℕ → ℕ
drop x zero = x
drop x (suc i) = drop (x / 10) i

abbrev pub power : ℕ → ℕ
power zero = 1
power (suc k) = 10 * power k

-- `n` is the number of digits of `x`.
pub record HasDigits (x n : ℕ) : Type 0 where
  pub all : drop x n ≡ 0
  pub no_zero : (i : ℕ) → i < n → 0 < drop x i

pub digits_suc : (x n : ℕ) → HasDigits (x / 10) n → 0 < x → HasDigits x (suc n)
digits_suc x n h pos = record { all = h.all; no_zero = λ i lt. digits_at i lt }
  where
    digits_at : (i : ℕ) → i < suc n → 0 < drop x i
    digits_at zero lt = pos
    digits_at (suc i) lt = h.no_zero i (omega arith)

-- The last digit and the rest, times m.
split_digit : (m x : ℕ) → m * x ≡ m * (x % 10) + m * 10 * (x / 10)
split_digit m x =
    let whole : x ≡ 10 * (x / 10) + x % 10 = omega arith in
    omega
      (arith, mul-add m (10 * (x / 10)) (x % 10), mul_assoc m 10 (x / 10), ap (λ y. m * y) whole)

le-mul : (m x : ℕ) → 0 < x → m ≤ m * x
le-mul m x pos =
    let before : x ≡ x - 1 + 1 = omega arith in
    omega (arith, mul-add m (x - 1) 1, ap (λ y. m * y) before)

character : (d : ℕ) → d < 10 → sub32 (sign_extend (0x30 + d)) 0x30 ≡ d
unfolding sign_extend
character d small = ground arith

-- The loop of `atoi` on the digits of `x`, the last one first.
pub atoi_loop_lem :
    (k idx m r x v len : ℕ) (str : Str)
    → HasDigits x k
    → ((j : ℕ) → j < k → str (len - 1 - (idx + j)) ≡ 0x30 + drop x j % 10)
    → r + m * x ≡ v
    → v < 2 ^ 31
    → atoi_loop k str len idx m r ≡ v
unfolding atoi_loop
atoi_loop_lem zero idx m r x v len str h chars sum small =
    let none_left : x ≡ 0 = h.all in omega (arith, sum, ap (λ y. m * y) none_left)
atoi_loop_lem (suc k) idx m r x v len str h chars sum small =
    let pos : 0 < x = h.no_zero 0 (omega arith) in
    let here : len - 1 - idx ≡ len - 1 - (idx + 0) = omega arith in
    let char : str (len - 1 - idx) ≡ 0x30 + x % 10 = ap str here ∙ chars 0 (omega arith) in
    let digit : mul32 m (x % 10) ≡ m * (x % 10) = omega (arith, split_digit m x, sum) in
    let added : add32 r (mul32 m (x % 10)) ≡ r + m * (x % 10) =
      omega (arith, split_digit m x, sum, digit) in
    rw (char, character (x % 10) (omega arith), added)
      (elim (dec_lt 0 k) [
        | yes more ↦
            let rest_pos : 0 < x / 10 = h.no_zero 1 (omega arith) in
            let next : mul32 m 10 ≡ m * 10 =
              omega (arith, split_digit m x, sum, le-mul (m * 10) (x / 10) rest_pos) in
            rw next (
              atoi_loop_lem k (idx + 1) (m * 10) (r + m * (x % 10)) (x / 10) v len str
                (record { all = h.all; no_zero = λ i lt. h.no_zero (suc i) (omega arith) })
                (λ j lt. ap str (omega arith) ∙ chars (suc j) (omega arith))
                (omega (arith, split_digit m x, sum)) small)
        | no last ↦
            let none_left : k ≡ 0 = omega arith in
            let no_more : x / 10 ≡ 0 = rw none_left at h.all in
            rw none_left (omega (arith, split_digit m x, sum, ap (λ y. m * 10 * y) no_more))
      ])
