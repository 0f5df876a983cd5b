-- ===== src/Libc/Memory/Laws.antt =====
-- What the memory routines of kernel/libc/string.cpp leave at each address.
use n00b_os.Prelude.{
  ℕ, zero, suc, ◌+◌, ◌-◌, ◌%◌, ◌^◌, ◌≤◌, ◌<◌, ◌≡◌, ◌⊎◌, arith, if◌then◌else◌, add32,
}
use n00b_os.Libc.Memory.{
  Mem, store, within, memset_loop, memset, copy_up, memcpy, copy_down, memmove,
}

memset_loop_lem :
    (k p value idx : ℕ) (m : Mem) (a : ℕ)
    → p + idx + k ≤ 2 ^ 32
    → memset_loop k p value idx m a ≡ (if within (p + idx) k a then value % 256 else m a)
unfolding memset_loop
memset_loop_lem zero p value idx m a h = ground arith
memset_loop_lem (suc k) p value idx m a h =
    ground (arith, memset_loop_lem k p value (idx + 1) (store m (add32 p idx) (value % 256)) a)

-- `memset` writes the low byte of `value` to the `n` addresses from `p` on, and nothing else.
pub memset_lem :
    (p value n : ℕ) (m : Mem) (a : ℕ)
    → p + n ≤ 2 ^ 32
    → memset p value n m a ≡ (if within p n a then value % 256 else m a)
unfolding memset
memset_lem p value n m a h = ground (arith, memset_loop_lem n p value 0 m a)

copy_up_lem :
    (k dst src idx : ℕ) (m : Mem) (a : ℕ)
    → dst + idx + k ≤ 2 ^ 32
    → src + idx + k ≤ 2 ^ 32
    → (dst ≤ src) ⊎ (src + idx + k ≤ dst)
    → copy_up k dst src idx m a ≡ (if within (dst + idx) k a then m (src + (a - dst)) else m a)
unfolding copy_up
copy_up_lem zero dst src idx m a hd hs apart = ground arith
copy_up_lem (suc k) dst src idx m a hd hs apart =
    ground (arith, copy_up_lem k dst src (idx + 1) (store m (add32 dst idx) (m (add32 src idx))) a)

copy_down_lem :
    (k dst src : ℕ) (m : Mem) (a : ℕ)
    → dst + k ≤ 2 ^ 32
    → src + k ≤ 2 ^ 32
    → src < dst
    → copy_down k dst src m a ≡ (if within dst k a then m (src + (a - dst)) else m a)
unfolding copy_down
copy_down_lem zero dst src m a hd hs lt = ground arith
copy_down_lem (suc k) dst src m a hd hs lt =
    ground (arith, copy_down_lem k dst src (store m (add32 dst k) (m (add32 src k))) a)

-- `memcpy` copies the `n` bytes at `src` to `dst` and changes nothing else, if neither block wraps
-- round the address space, and `dst` does not lie inside the source behind its start.
pub memcpy_lem :
    (dst src n : ℕ) (m : Mem) (a : ℕ)
    → dst + n ≤ 2 ^ 32
    → src + n ≤ 2 ^ 32
    → (dst ≤ src) ⊎ (src + n ≤ dst)
    → memcpy dst src n m a ≡ (if within dst n a then m (src + (a - dst)) else m a)
unfolding memcpy
memcpy_lem dst src n m a hd hs apart = ground (arith, copy_up_lem n dst src 0 m a)

-- For blocks that do not wrap, however they overlap, `memmove` leaves at `dst` the `n` bytes that
-- stood at `src` before the call, and every other address as it was.
pub memmove_lem :
    (dst src n : ℕ) (m : Mem) (a : ℕ)
    → dst + n ≤ 2 ^ 32
    → src + n ≤ 2 ^ 32
    → memmove dst src n m a ≡ (if within dst n a then m (src + (a - dst)) else m a)
unfolding memmove
memmove_lem dst src n m a hd hs =
    ground (arith, copy_up_lem n dst src 0 m a, copy_down_lem n dst src m a)
