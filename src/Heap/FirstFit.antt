-- ===== src/Heap/FirstFit.antt =====
-- kernel/mm/heap/find_first_fit_strategy.cpp. A loop takes fuel or recurs on the rounds left, and
-- `none` is a call that does not return.
pub mod Exhausted
pub mod Live
pub mod Marks
pub mod Release
pub mod Search
use mathlib.Core.Option
use n00b_os.Prelude.{
  ℕ, zero, suc, ◌+◌, ◌-◌, ◌*◌, ◌/◌, ◌%◌, ◌^◌, Bool, true, false, ltb, leb, ◌==◌, if◌then◌else◌,
  Option, none, some, bit_and, bit_or, add32, sub32, mul32, neg32,
}
use n00b_os.Config.{heap_block_size, enomem}
use n00b_os.Libc.Memory.{Mem, store, memset}
use n00b_os.Heap.{
  Heap, entry_taken, entry_free, has_next, is_first, align_to_upper, block_idx_2_block_address,
  block_address_2_block_idx, get_entry_type, entry_address, entry,
}

-- `get_entry_type(heap->table->entries[idx]) == HEAP_BLOCK_TABLE_ENTRY_FREE`
unfoldable pub is_free : Heap → Mem → ℕ → Bool
unfolding get_entry_type
is_free heap m idx = get_entry_type (entry heap m idx) == entry_free

-- The inner loop of the search, with `total_entries - idx_range` rounds left:
-- `contiguous_block_count` and `idx_range` behind it.
unfoldable pub count_contiguous : ℕ → Heap → Mem → ℕ → ℕ → ℕ × ℕ
count_contiguous zero heap m count idx_range = (count, idx_range)
count_contiguous (suc k) heap m count idx_range =
    let rest = count_contiguous k heap m (count + 1) (idx_range + 1) in
    if is_free heap m idx_range then rest else (count, idx_range)

unfoldable pub find_loop : ℕ → Heap → Mem → ℕ → ℕ → Option ℕ
find_loop zero heap m block_size idx = none
find_loop (suc fuel) heap m block_size idx =
    let total = heap.table.total_entries in
    let run = count_contiguous (total - idx) heap m 0 idx in
    let rest = find_loop fuel heap m block_size (add32 run.1 1) in
    if ltb idx total
    then if leb block_size (mul32 run.0 heap_block_size) then some idx else rest
    else some (neg32 enomem)

-- The index of a block, or the pattern of -ENOMEM.
unfoldable pub find_first_fit_start_block : Heap → Mem → ℕ → Option ℕ
unfolding find_loop count_contiguous
find_first_fit_start_block heap m block_size =
    find_loop (heap.table.total_entries + 1) heap m block_size 0

-- One round of the loop that marks the blocks as allocated.
unfoldable pub mark_block : Heap → ℕ → ℕ → Mem → Mem
mark_block heap idx final_block_idx m =
    let a = entry_address heap idx in
    let m' = store m a entry_taken in
    if idx == final_block_idx then m' else store m' a (bit_or (m' a) has_next)

unfoldable pub mark_loop : ℕ → Heap → ℕ → ℕ → Mem → Option Mem
unfolding mark_block
mark_loop zero heap idx final_block_idx m = none
mark_loop (suc fuel) heap idx final_block_idx m =
    let rest =
      mark_loop fuel heap (add32 idx 1) final_block_idx (mark_block heap idx final_block_idx m) in
    if leb idx final_block_idx then rest else some m

-- What `heap_malloc` does once the search has returned `first_block_idx`. The marking loop has one
-- round more than there are blocks to mark, which it needs where the last index does not wrap.
unfoldable pub allocate_from : Heap → ℕ → ℕ → Mem → Option (ℕ × Mem)
unfolding mark_loop block_idx_2_block_address memset
allocate_from heap aligned_size first_block_idx m =
    let data_start = block_idx_2_block_address heap first_block_idx in
    let zeroed = memset data_start 0x00 aligned_size m in
    let num_blocks = aligned_size / heap_block_size in
    let final_block_idx = sub32 (add32 first_block_idx num_blocks) 1 in
    let first_marked = store zeroed (entry_address heap first_block_idx) is_first in
    Option.map (λ m'. (data_start, m'))
      (mark_loop (num_blocks + 1) heap first_block_idx final_block_idx first_marked)

unfoldable pub heap_malloc : Heap → ℕ → Mem → Option (ℕ × Mem)
unfolding align_to_upper find_first_fit_start_block allocate_from
heap_malloc heap block_size m =
    let aligned_size = align_to_upper block_size in
    Option.bind (find_first_fit_start_block heap m aligned_size)
      (λ first_block_idx. allocate_from heap aligned_size first_block_idx m)

-- With `total_entries - idx` rounds left.
unfoldable pub free_loop : ℕ → Heap → ℕ → Mem → Mem
free_loop zero heap idx m = m
free_loop (suc k) heap idx m =
    let block : ℕ = entry heap m idx in
    let m' = store m (entry_address heap idx) entry_free in
    let rest = free_loop k heap (idx + 1) m' in if bit_and block has_next == 0 then m' else rest

unfoldable pub heap_free : Heap → ℕ → Mem → Mem
unfolding free_loop block_address_2_block_idx
heap_free heap addr m =
    let block_idx = block_address_2_block_idx heap addr in
    free_loop (heap.table.total_entries - block_idx) heap block_idx m
