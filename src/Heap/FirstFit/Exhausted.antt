-- ===== src/Heap/FirstFit/Exhausted.antt =====
-- What `heap_malloc` of find_first_fit_strategy.cpp does where no run of free blocks is long
-- enough: it does not test for -ENOMEM.
use mathlib.Core.Option
use n00b_os.Prelude.{
  ℕ, zero, suc, ◌+◌, ◌-◌, ◌*◌, ◌/◌, ◌^◌, ◌<◌, ◌≡◌, refl, arith, le→leb, Option, none, some, add32,
  sub32, neg32,
}
use n00b_os.Config.{heap_block_size, enomem}
use n00b_os.Libc.Memory.{Mem, store, memset}
use n00b_os.Heap.{Heap, align_to_upper, block_idx_2_block_address, entry_address, is_first}
use n00b_os.Heap.FirstFit.{mark_block, mark_loop, allocate_from, heap_malloc}
use n00b_os.Heap.FirstFit.Search.{
  FreeRun, Found, found, no_memory, find_first_fit_start_block-Found,
}

-- A `size_t` is never above its largest value.
mark_loop-forever :
    (fuel : ℕ) (h : Heap) (idx : ℕ) (m : Mem)
    → idx < 2 ^ 32
    → mark_loop fuel h idx (2 ^ 32 - 1) m ≡ none
unfolding mark_loop
mark_loop-forever zero h idx m lt = refl
mark_loop-forever (suc fuel) h idx m lt =
    rw (le→leb idx (2 ^ 32 - 1) (omega arith))
      (mark_loop-forever fuel h (add32 idx 1) (mark_block h idx (2 ^ 32 - 1) m) (omega arith))

Found-no_memory :
    (h : Heap) (m : Mem) (n : ℕ) {r : Option ℕ}
    → Found h m n r
    → ((j : ℕ) → ¬ FreeRun h m j n)
    → r ≡ some (neg32 enomem)
Found-no_memory h m n (found b run first) none_at = absurd (none_at b run)
Found-no_memory h m n (no_memory _) none_at = refl

map-address :
    (d : ℕ) (r : Option Mem) {a : ℕ} {m' : Mem}
    → Option.map {B = ℕ × Mem} (λ m. (d, m)) r ≡ some (a, m')
    → a ≡ d
map-address d none e = cc
map-address d (some m) e = cc

map-none : (d : ℕ) (r : Option Mem) → r ≡ none → Option.map {B = ℕ × Mem} (λ m. (d, m)) r ≡ none
map-none d none e = refl
map-none d (some m) e = cc

module _ (h : Heap) (m : Mem) (block_size : ℕ) where
  search_fails :
      h.table.total_entries < 2 ^ 20
      → block_size < 2 ^ 32 - heap_block_size
      → ((j : ℕ) → ¬ FreeRun h m j (block_size / heap_block_size + 1))
      → heap_malloc h block_size m
        ≡ allocate_from h ((block_size / heap_block_size + 1) * heap_block_size) (neg32 enomem) m
  unfolding heap_malloc align_to_upper Option.bind
  search_fails small size_small none_at =
      let n = block_size / heap_block_size + 1 in
      let aligned : align_to_upper block_size ≡ n * heap_block_size = omega arith in
      rw (
        aligned,
        Found-no_memory h m n
            (find_first_fit_start_block-Found h m n small (omega arith) (omega arith)) none_at,
      )

  -- Where the table has no run of free blocks that is long enough, `heap_malloc` reports no
  -- failure: if it returns at all, it returns the address 12 blocks (48 KiB) below the start of the
  -- heap, wrapped to 32 bits. For a request of 12 blocks it does not return: its marking loop, which
  -- starts at this block index and runs up to the one that `final_block_idx` wraps to, ends after no
  -- number of rounds, whatever the memory.
  pub heap_malloc_exhausted :
      h.table.total_entries < 2 ^ 20
      → block_size < 2 ^ 32 - heap_block_size
      → ((j : ℕ) → ¬ FreeRun h m j (block_size / heap_block_size + 1))
      → ((a : ℕ) (m' : Mem)
          → heap_malloc h block_size m ≡ some (a, m')
          → a ≡ add32 h.start_address (2 ^ 32 - 12 * heap_block_size))
        × (block_size / heap_block_size + 1 ≡ 12
            → (heap_malloc h block_size m ≡ none)
              × ((rounds : ℕ) (m' : Mem)
                  → mark_loop rounds h (neg32 enomem) (sub32 (add32 (neg32 enomem) 12) 1) m'
                    ≡ none))
  unfolding allocate_from block_idx_2_block_address
  heap_malloc_exhausted small size_small none_at =
      let e = search_fails small size_small none_at in
      let data_start = block_idx_2_block_address h (neg32 enomem) in
      let first_marked =
        store (memset data_start 0x00 (12 * heap_block_size) m) (entry_address h (neg32 enomem))
          is_first in
      rw e (
        λ a m' r. map-address _ _ r,
        λ twelve. rw twelve (
          map-none data_start (mark_loop 13 h (neg32 enomem) (2 ^ 32 - 1) first_marked)
              (mark_loop-forever 13 h (neg32 enomem) first_marked (omega arith)),
          λ rounds m'. mark_loop-forever rounds h (neg32 enomem) m' (omega arith),
        ),
      )
