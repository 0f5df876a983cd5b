-- ===== src/Libc/Strings.antt =====
-- The string routines of kernel/libc/string.cpp. A string that is only read is a function from the
-- index to the byte there; one that is written lies in the byte memory. A loop that ends at a null
-- byte takes fuel, and `none` is a loop that does not end within it.
pub mod Compare
pub mod Copy
use mathlib.Core.Option
use n00b_os.Prelude.{
  ℕ, zero, suc, ◌+◌, ◌-◌, Bool, true, false, ◌&&◌, ◌==◌, if◌then◌else◌, Option, none, some, add32,
  neg32, slt, sign_extend, rounds,
}
use n00b_os.Libc.Ctype.{tolower}
use n00b_os.Libc.Memory.{Mem, store}

abbrev pub Str : Type 0
Str = ℕ → ℕ

unfoldable pub strlen_loop : ℕ → Str → ℕ → Option ℕ
strlen_loop zero str idx = none
strlen_loop (suc fuel) str idx =
    let rest = strlen_loop fuel str (idx + 1) in if str idx == 0 then some idx else rest

unfoldable pub strlen : ℕ → Str → Option ℕ
unfolding strlen_loop
strlen fuel str = strlen_loop fuel str 0

unfoldable pub strcpy_loop : ℕ → ℕ → ℕ → Mem → Option Mem
strcpy_loop zero dst src m = none
strcpy_loop (suc fuel) dst src m =
    let c : ℕ = m src in
    let rest = strcpy_loop fuel (add32 dst 1) (add32 src 1) (store m dst c) in
    if c == 0 then some (store m dst 0) else rest

unfoldable pub strcpy : ℕ → ℕ → ℕ → Mem → Option Mem
unfolding strcpy_loop
strcpy fuel dst src m = strcpy_loop fuel dst src m

-- The first loop of `strncpy`, with `n - idx` rounds left: that count and `dst` behind it.
unfoldable pub strncpy_copy : ℕ → ℕ → ℕ → Mem → ℕ × ℕ × Mem
strncpy_copy zero dst src m = (0, dst, m)
strncpy_copy (suc k) dst src m =
    let c : ℕ = m src in
    let rest = strncpy_copy k (add32 dst 1) (add32 src 1) (store m dst c) in
    if c == 0 then (suc k, dst, m) else rest

-- The second loop, which does not move `dst`.
unfoldable pub strncpy_pad : ℕ → ℕ → Mem → Mem
strncpy_pad zero dst m = m
strncpy_pad (suc k) dst m = strncpy_pad k dst (store m dst 0)

unfoldable pub strncpy : ℕ → ℕ → ℕ → Mem → Mem
unfolding strncpy_copy strncpy_pad
strncpy dst src n m = let (left, dst', m') = strncpy_copy n dst src m in strncpy_pad left dst' m'

-- With `k` rounds left. The last test of the source repeats the one before it.
unfoldable pub strncmp_loop : ℕ → Str → Str → ℕ → ℕ
strncmp_loop zero str1 str2 idx = 0
strncmp_loop (suc k) str1 str2 idx =
    let end_str1 = str1 idx == 0 in
    let end_str2 = str2 idx == 0 in
    let c1 = sign_extend (str1 idx) in
    let c2 = sign_extend (str2 idx) in
    let rest = strncmp_loop k str1 str2 (idx + 1) in
    if end_str1 && end_str2
    then 0
    else if end_str1
    then neg32 1
    else if end_str2
    then 1
    else if slt c1 c2
    then neg32 1
    else if slt c1 c2
    then 1
    else rest

unfoldable pub strncmp : Str → Str → ℕ → ℕ
unfolding strncmp_loop
strncmp str1 str2 n = strncmp_loop (rounds n) str1 str2 0

unfoldable pub strcasecmp_loop : ℕ → Str → Str → ℕ → Option ℕ
strcasecmp_loop zero str1 str2 idx = none
strcasecmp_loop (suc fuel) str1 str2 idx =
    let end_str1 = str1 idx == 0 in
    let end_str2 = str2 idx == 0 in
    let c1 = tolower (sign_extend (str1 idx)) in
    let c2 = tolower (sign_extend (str2 idx)) in
    let rest = strcasecmp_loop fuel str1 str2 (idx + 1) in
    if end_str1 && end_str2
    then some 0
    else if end_str1
    then some (neg32 1)
    else if end_str2
    then some 1
    else if slt c1 c2
    then some (neg32 1)
    else if slt c1 c2
    then some 1
    else rest

unfoldable pub strcasecmp : ℕ → Str → Str → Option ℕ
unfolding strcasecmp_loop
strcasecmp fuel str1 str2 = strcasecmp_loop fuel str1 str2 0
