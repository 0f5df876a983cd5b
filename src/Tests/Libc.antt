-- ===== src/Tests/Libc.antt =====
-- kernel/libc on small buffers and texts.
use n00b_os.Prelude.{
  sdiv, smod, is_neg, ℕ, ◌+◌, ◌-◌, ◌≡◌, ◌↔◌, refl, inr, arith, some, [], ◌∷◌, ◌==◌, if◌then◌else◌,
  slt, neg32, sign_extend,
}
use n00b_os.Libc.Ctype.{tolower}
use n00b_os.Libc.Memory.{Mem, within, memmove, memcmp}
use n00b_os.Libc.Memory.Laws.{memmove_lem}
use mathlib.Core.Option
use n00b_os.Libc.Strings.{strncpy, strcasecmp}
use n00b_os.Libc.Strings.Copy.{strncpy_lem, strncpy_result, IsString}
use n00b_os.Libc.Stdlib.{atoi, itoa}
use n00b_os.Libc.Stdlib.Decimal.{atoi-itoa}
use n00b_os.Libc.Strings.Compare.{view, NowhereBelow, strcasecmp-eq-zero}

-- Each address holds its own number.
abbrev counted : Mem
counted a = a

-- Overlapping blocks.
memmove_lem_example :
    memmove 102 100 4 counted 105 ≡ (if within 102 4 105 then counted (100 + (105 - 102)) else 105)
memmove_lem_example = memmove_lem 102 100 4 counted 105 (omega arith) (omega arith)

memmove_overlap : memmove 102 100 4 counted 105 ≡ 103
unfolding memmove
memmove_overlap = refl

memcmp_signs : memcmp 10 20 3 counted ≡ neg32 1
unfolding memcmp
memcmp_signs = refl

-- "ab" at 10, with its null byte.
abbrev ab : Mem
ab a = if a == 10 then b'a' else if a == 11 then b'b' else if a == 12 then 0 else 7

ab-IsString : IsString ab 10 2
ab-IsString = record { content = λ i lt e. ground arith; end = refl }

strncpy_lem_example : strncpy 100 10 6 ab 103 ≡ strncpy_result 100 10 6 2 ab 103
strncpy_lem_example =
    strncpy_lem 6 2 100 10 ab 103 (omega arith) (omega arith) (inr (omega arith)) ab-IsString

-- The fourth of the six bytes keeps what it held.
strncpy_no_padding : strncpy 100 10 6 ab 103 ≡ 7
unfolding strncpy
strncpy_no_padding = refl

letters_differ : strcasecmp 5 (view (b'B' ∷ [])) (view (b'a' ∷ [])) ≡ some 0
unfolding strcasecmp slt sign_extend tolower
letters_differ = refl

strcasecmp-eq-zero_example :
    (r : ℕ) × (strcasecmp 5 (view (b'B' ∷ [])) (view (b'a' ∷ [])) ≡ some r)
    × ((r ≡ 0) ↔ NowhereBelow (b'B' ∷ []) (b'a' ∷ []))
strcasecmp-eq-zero_example =
    strcasecmp-eq-zero (b'B' ∷ []) (b'a' ∷ []) 5 (omega arith) (omega arith) (omega arith)

atoi-itoa_example :
    (text : ℕ → ℕ) × (itoa 1905 (λ i. 7) 10 ≡ some text) × (atoi 12 text ≡ some 1905)
atoi-itoa_example = atoi-itoa 1905 12 (λ i. 7) (omega arith) (omega arith) (omega arith)

-- The digits of a negative number keep the order in which they are written: "-21" for -12.
itoa_negative :
    Option.map {B = ℕ × ℕ × ℕ} (λ text. (text 0, text 1, text 2)) (itoa (neg32 12) (λ i. 7) 10)
    ≡ some (b'-', b'2', b'1')
unfolding itoa slt sdiv smod is_neg
itoa_negative = refl

-- No null byte stands behind the 0.
itoa_zero : Option.map {B = ℕ × ℕ} (λ text. (text 0, text 1)) (itoa 0 (λ i. 7) 10) ≡ some (b'0', 7)
unfolding itoa is_neg
itoa_zero = refl
