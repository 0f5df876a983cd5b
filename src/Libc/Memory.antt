-- ===== src/Libc/Memory.antt =====
-- The memory routines of kernel/libc/string.cpp over a byte memory. An address is a 32-bit number,
-- and each routine returns the memory after it; the pointer it returns is its first argument.
pub mod Laws
use n00b_os.Prelude.{
  ℕ, zero, suc, ◌+◌, ◌-◌, ◌%◌, Bool, true, false, ◌&&◌, ltb, leb, ◌==◌, if◌then◌else◌, add32, neg32,
}

-- What each address holds, a byte.
abbrev pub Mem : Type 0
Mem = ℕ → ℕ

abbrev pub store : Mem → ℕ → ℕ → Mem
store m p v a = if a == p then v else m a

-- `a` is one of the `n` addresses from `p` on.
abbrev pub within : ℕ → ℕ → ℕ → Bool
within p n a = leb p a && ltb a (p + n)

-- The loops recur on the rounds that are left.
unfoldable pub memset_loop : ℕ → ℕ → ℕ → ℕ → Mem → Mem
memset_loop zero p value idx m = m
memset_loop (suc k) p value idx m =
    memset_loop k p value (idx + 1) (store m (add32 p idx) (value % 256))

unfoldable pub memset : ℕ → ℕ → ℕ → Mem → Mem
unfolding memset_loop
memset p value n m = memset_loop n p value 0 m

copy_up : ℕ → ℕ → ℕ → ℕ → Mem → Mem
copy_up zero dst src idx m = m
copy_up (suc k) dst src idx m =
    copy_up k dst src (idx + 1) (store m (add32 dst idx) (m (add32 src idx)))

unfoldable pub memcpy : ℕ → ℕ → ℕ → Mem → Mem
unfolding copy_up
memcpy dst src n m = copy_up n dst src 0 m

copy_down : ℕ → ℕ → ℕ → Mem → Mem
copy_down zero dst src m = m
copy_down (suc idx) dst src m = copy_down idx dst src (store m (add32 dst idx) (m (add32 src idx)))

unfoldable pub memmove : ℕ → ℕ → ℕ → Mem → Mem
unfolding copy_up copy_down
memmove dst src n m = if ltb src dst then copy_down n dst src m else copy_up n dst src 0 m

memcmp_loop : ℕ → ℕ → ℕ → ℕ → Mem → ℕ
memcmp_loop zero mem1 mem2 idx m = 0
memcmp_loop (suc k) mem1 mem2 idx m =
    let rest = memcmp_loop k mem1 mem2 (idx + 1) m in
    let b1 : ℕ = m (add32 mem1 idx) in
    let b2 : ℕ = m (add32 mem2 idx) in if ltb b2 b1 then 1 else if ltb b1 b2 then neg32 1 else rest

-- The `int` -1, 0 or 1.
unfoldable pub memcmp : ℕ → ℕ → ℕ → Mem → ℕ
unfolding memcmp_loop
memcmp mem1 mem2 n m = memcmp_loop n mem1 mem2 0 m
