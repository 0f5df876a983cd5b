-- ===== src/Libc/Stdlib/Decimal.antt =====
-- Numbers in decimal, as itoa of kernel/libc/stdlib.cpp writes and atoi reads them.
pub mod Digits
pub mod Populate
pub mod Reverse
use native.Mathlib.Nat.{mul-add, mul_assoc}
use n00b_os.Prelude.{
  ℕ, zero, suc, ◌+◌, ◌-◌, ◌*◌, ◌/◌, ◌%◌, ◌^◌, ◌<◌, ◌≤◌, ◌≡◌, ◌≢◌, ◌⊎◌, inl, inr, refl, ap, ◌∙◌,
  true, false, ◌==◌, ==_of_ne, ==_refl, lt→ltb, dec_lt, ℕ_discrete, some, add32, sub32, mul32, slt,
  slt_small, sdiv_small, smod_small, sign_extend, is_neg_small, arith,
}
use n00b_os.Libc.Memory.{store}
use n00b_os.Libc.Strings.{Str}
use n00b_os.Libc.Strings.Copy.{IsString, strlen_lem}
use n00b_os.Libc.Stdlib.{atoi_loop, atoi, populate_loop, reverse_loop, itoa}
use n00b_os.Libc.Stdlib.Decimal.Digits.{drop, atoi_loop_lem}
use n00b_os.Libc.Stdlib.Decimal.Populate.{Populated, populate_loop_lem}
use n00b_os.Libc.Stdlib.Decimal.Reverse.{reversed}

-- The text that `itoa` makes of the digits.
abbrev text_of : ℕ → (ℕ → ℕ) → ℕ → ℕ
text_of n buf = store (reverse_loop (n / 2) 0 n buf) n 0

text_of-characters :
    (value n : ℕ) (str buf : ℕ → ℕ) (a : ℕ)
    → Populated value 0 n str buf
    → a < n
    → text_of n buf a ≡ 0x30 + drop value (n - 1 - a) % 10
text_of-characters value n str buf a written lt =
    let other : (a == n) ≡ false = ground arith in
    rw other (reversed n buf a lt ∙ ap buf (omega arith) ∙ written.places (n - 1 - a) (omega arith))

text_of-IsString :
    (value n : ℕ) (str buf : ℕ → ℕ) → Populated value 0 n str buf → IsString (text_of n buf) 0 n
text_of-IsString value n str buf written = record {
  content = λ i lt e.
      let char = text_of-characters value n str buf i written lt in
      let here : text_of n buf i ≡ 0 = ap (text_of n buf) (omega arith) ∙ e in
      omega (arith, char, here);
  end = let start : 0 + n ≡ n = omega arith in rw (start, ==_refl n) refl;
}

text_of-atoi :
    (value n : ℕ) (str buf : ℕ → ℕ)
    → Populated value 0 n str buf
    → value < 2 ^ 31
    → atoi_loop n (text_of n buf) n 0 1 0 ≡ value
text_of-atoi value n str buf written small =
    atoi_loop_lem n 0 1 0 value value n (text_of n buf) written.digits
      (λ j lt.
        let place : n - 1 - (0 + j) ≡ n - 1 - j = omega arith in
        let digit : n - 1 - (n - 1 - j) ≡ j = omega arith in
        rw place (
          text_of-characters value n str buf (n - 1 - j) written (omega arith)
          ∙ ap (λ i. 0x30 + drop value i % 10) digit))
      (omega arith) small

-- For a positive `int` `itoa` to base 10 writes a text that ends by a null byte and that `atoi` reads
-- back as the number; given fuel for its ten digits and the null byte.
pub atoi-itoa :
    (value fuel : ℕ) (str : ℕ → ℕ)
    → 0 < value
    → value < 2 ^ 31
    → 10 < fuel
    → (text : ℕ → ℕ) × (itoa value str 10 ≡ some text) × (atoi fuel text ≡ some value)
unfolding itoa atoi
atoi-itoa value fuel str pos small enough =
    let (n, buf, le, loops, written) = populate_loop_lem 10 value 0 str (omega arith) small in
    let start : 0 + n ≡ n = omega arith in
    let nonzero : value ≢ 0 = λ e. omega arith in
    let length_lem =
      strlen_lem n fuel (text_of n buf) (omega arith) (text_of-IsString value n str buf written) in
    (
      text_of n buf,
      rw (is_neg_small value small, ==_of_ne nonzero, loops, start) refl,
      rw (length_lem, text_of-atoi value n str buf written small) refl,
    )
