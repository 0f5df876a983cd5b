-- ===== src/Libc/Stdlib.antt =====
-- kernel/libc/stdlib.cpp. An `int` is its 32-bit pattern; `itoa` writes into a buffer, a function from
-- the index.
pub mod Decimal
use n00b_os.Prelude.{
  ℕ, zero, suc, ◌+◌, ◌-◌, ◌/◌, ◌%◌, ◌==◌, not, if◌then◌else◌, Option, none, some, slt, sdiv, smod,
  is_neg, add32, sub32, mul32, sign_extend,
}
use mathlib.Core.Option
use n00b_os.Libc.Memory.{store}
use n00b_os.Libc.Strings.{Str, strlen}

-- The loop with `len - idx` rounds left.
unfoldable pub atoi_loop : ℕ → Str → ℕ → ℕ → ℕ → ℕ → ℕ
atoi_loop zero str len idx base_10_multiplier result = result
atoi_loop (suc k) str len idx base_10_multiplier result =
    let char_idx = len - 1 - idx in
    let c = sign_extend (str char_idx) in
    atoi_loop k str len (idx + 1) (mul32 base_10_multiplier 10)
      (add32 result (mul32 base_10_multiplier (sub32 c 0x30)))

-- With fuel for `strlen`.
unfoldable pub atoi : ℕ → Str → Option ℕ
unfolding atoi_loop strlen
atoi fuel str = Option.map (λ len. atoi_loop len str len 0 1 0) (strlen fuel str)

-- `while (value > 0)` on fuel: the buffer, and `populate_idx` behind the loop.
unfoldable pub populate_loop : ℕ → ℕ → ℕ → (ℕ → ℕ) → Option ((ℕ → ℕ) × ℕ)
populate_loop zero value populate_idx str = none
populate_loop (suc fuel) value populate_idx str =
    let remainder = smod value 10 in
    let rest =
      populate_loop fuel (sdiv value 10) (populate_idx + 1)
        (store str populate_idx (add32 b'0' remainder % 256)) in
    if slt 0 value then rest else some (str, populate_idx)

-- The loop that reverses, from `reverse_idx` on with `k` rounds left.
unfoldable pub reverse_loop : ℕ → ℕ → ℕ → (ℕ → ℕ) → ℕ → ℕ
reverse_loop zero reverse_idx populate_idx str = str
reverse_loop (suc k) reverse_idx populate_idx str =
    let other = populate_idx - reverse_idx - 1 in
    let tmp : ℕ = str reverse_idx in
    reverse_loop k (reverse_idx + 1) populate_idx
      (store (store str reverse_idx (str other)) other tmp)

-- The buffer behind the call. Eleven rounds are enough for the ten digits of an `int`.
unfoldable pub itoa : ℕ → (ℕ → ℕ) → ℕ → Option (ℕ → ℕ)
unfolding populate_loop reverse_loop
itoa value str base =
    let is_negative = is_neg value in
    let magnitude = if is_negative then sub32 0 value else value in
    let start_idx = if is_negative then 1 else 0 in
    let signed = if is_negative then store str 0 b'-' else str in
    if not (base == 10)
    then some str
    else if value == 0
    then some (store str 0 b'0')
    else Option.map
        (λ (populated, populate_idx).
          store (reverse_loop (populate_idx / 2) start_idx populate_idx populated) populate_idx 0)
        (populate_loop 11 magnitude start_idx signed)
