-- ===== src/Libc/Strings/Copy.antt =====
-- What the copying routines of kernel/libc/string.cpp write, and how far they read.
use n00b_os.Prelude.{
  ℕ, zero, suc, ◌+◌, ◌-◌, ◌^◌, ◌≤◌, ◌<◌, ◌≡◌, ◌≢◌, ◌⊎◌, false, ◌==◌, if◌then◌else◌, some, add32,
  arith, min, ◌∙◌, ltb, ◌&&◌,
}
use n00b_os.Libc.Memory.{Mem, store, within}
use n00b_os.Libc.Strings.{Str, strlen_loop, strlen, strncpy_pad, strncpy}

-- `str` holds a string of `n` bytes from `idx` on: the first null byte is at `idx + n`.
pub record IsString (str : Str) (idx n : ℕ) : Type 0 where
  pub content : (i : ℕ) → i < n → str (idx + i) ≢ 0
  pub end : str (idx + n) ≡ 0

strlen_loop_lem :
    (n fuel : ℕ) (str : Str) (idx : ℕ)
    → n < fuel
    → IsString str idx n
    → strlen_loop fuel str idx ≡ some (idx + n)
unfolding strlen_loop
strlen_loop_lem n zero str idx enough s = absurd (omega arith)
strlen_loop_lem zero (suc fuel) str idx enough s = ground (arith, s.end)
strlen_loop_lem (suc n) (suc fuel) str idx enough s =
    let rest : IsString str (idx + 1) n = record {
      content = λ i lt. ground (arith, s.content (suc i));
      end = ground (arith, s.end);
    } in
    ground (arith, s.content 0, strlen_loop_lem n fuel str (idx + 1) (omega arith) rest)

-- On a string of `n` bytes `strlen` ends, given fuel for its null byte too, and returns `n`.
pub strlen_lem : (n fuel : ℕ) (str : Str) → n < fuel → IsString str 0 n → strlen fuel str ≡ some n
unfolding strlen
strlen_lem n fuel str enough s = ground (arith, strlen_loop_lem n fuel str 0 enough s)

strncpy_pad_lem :
    (k dst : ℕ) (m : Mem) (a : ℕ) → strncpy_pad k dst m a ≡ (if ltb 0 k && a == dst then 0 else m a)
unfolding strncpy_pad
strncpy_pad_lem zero dst m a = ground arith
strncpy_pad_lem (suc k) dst m a = ground (arith, strncpy_pad_lem k dst (store m dst 0) a)

-- What `strncpy` of at most `n` bytes leaves at `a`, for a source of `l` bytes.
abbrev pub strncpy_result : ℕ → ℕ → ℕ → ℕ → Mem → ℕ → ℕ
strncpy_result dst src n l m a =
    if within dst (min n l) a
    then m (src + (a - dst))
    else if ltb l n && a == dst + l
    then 0
    else m a

-- The result of copying one byte and then the rest.
strncpy_result-cons :
    (dst src n l : ℕ) (m : Mem) (a : ℕ)
    → (dst + suc n ≤ src) ⊎ (src + suc l < dst)
    → strncpy_result (dst + 1) (src + 1) n l (store m dst (m src)) a
      ≡ strncpy_result dst src (suc n) (suc l) m a
strncpy_result-cons dst src n l m a apart = ground arith

-- `strncpy` copies the text at `src`, of `l` bytes, as far as `n` bytes allow, and ends it by one
-- null byte if there is room. It writes nothing else, in particular not the rest of the `n` bytes.
-- The blocks do not wrap round the address space, and do not overlap.
pub strncpy_lem :
    (n l dst src : ℕ) (m : Mem) (a : ℕ)
    → dst + n < 2 ^ 32
    → src + n < 2 ^ 32
    → (dst + n ≤ src) ⊎ (src + l < dst)
    → IsString m src l
    → strncpy dst src n m a ≡ strncpy_result dst src n l m a
unfolding strncpy
strncpy_lem zero l dst src m a hd hs apart s = ground arith
strncpy_lem (suc n) zero dst src m a hd hs apart s =
    ground (arith, s.end, strncpy_pad_lem (suc n) dst m a)
strncpy_lem (suc n) (suc l) dst src m a hd hs apart s =
    let m' = store m dst (m src) in
    let rest : IsString m' (src + 1) l = record {
      content = λ i lt. ground (arith, s.content (suc i) (omega arith));
      end = ground (arith, s.end);
    } in
    let more : (m src == 0) ≡ false = ground (arith, s.content 0) in
    let next_dst : add32 dst 1 ≡ dst + 1 = omega arith in
    let next_src : add32 src 1 ≡ src + 1 = omega arith in
    let ih =
      strncpy_lem n l (dst + 1) (src + 1) m' a (omega arith) (omega arith) (omega arith) rest in
    rw (more, next_dst, next_src) (ih ∙ strncpy_result-cons dst src n l m a apart)
