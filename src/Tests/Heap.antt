-- ===== src/Tests/Heap.antt =====
-- kernel/mm/heap on a heap of three blocks, the first of which is taken, and on the kernel's heap.
use n00b_os.Prelude.{
  ℕ, ◌^◌, ◌<◌, ◌≡◌, ◌≢◌, refl, arith, ◌==◌, if◌then◌else◌, none, some, [], ◌∷◌, add32, sub32, neg32,
}
use n00b_os.Config.{heap_table_address, enomem}
use n00b_os.Libc.Memory.{Mem, store, memset}
use n00b_os.Heap.{Heap, align_to_upper}
use n00b_os.Heap.FirstFit.{is_free, find_first_fit_start_block, mark_loop, heap_malloc}
use n00b_os.Heap.FirstFit.Search.{FreeRun}
use n00b_os.Heap.FirstFit.Marks.{IsPlaced}
use n00b_os.Heap.FirstFit.Live.{Holds, Served, heap_malloc-Served}
use n00b_os.Heap.FirstFit.Exhausted.{heap_malloc_exhausted}
use n00b_os.Heap.Kernel.{KernelHeap}
use n00b_os.Heap.Kernel.Request.{kernel_allocator, Given, kfree-kzalloc}
use n00b_os.Heap.Kernel.Session.{the_heap, kheap_init_lem, start, write, Session-Holds}

abbrev small_heap : Heap
small_heap = record { table = record { entries = 0; total_entries = 3 }; start_address = 4096 }

-- Block 0 is taken.
abbrev one_taken : Mem
one_taken a = if a == 0 then 1 else 0

small_heap-IsPlaced : IsPlaced small_heap
small_heap-IsPlaced = omega arith

one_taken-Holds : Holds small_heap one_taken ((0, 1) ∷ [])
one_taken-Holds = record {
  entries = λ i lt. ground arith;
  in_table = omega arith;
  apart = (tt, tt);
}

rounds_up : align_to_upper 700 ≡ 4096
unfolding align_to_upper
rounds_up = refl

-- A size that is aligned is given one more block.
rounds_aligned_up : align_to_upper 4096 ≡ 8192
unfolding align_to_upper
rounds_aligned_up = refl

finds_block_1 : find_first_fit_start_block small_heap one_taken 8192 ≡ some 1
unfolding find_first_fit_start_block is_free
finds_block_1 = refl

finds_nothing : find_first_fit_start_block small_heap one_taken 12288 ≡ some (neg32 12)
unfolding find_first_fit_start_block is_free
finds_nothing = refl

block_1_free : FreeRun small_heap one_taken 1 1
unfolding is_free
block_1_free = record {
  inside = omega arith;
  free = λ i lt. let first : i ≡ 0 = omega arith in rw first;
}

heap_malloc-Served_example :
    Served small_heap-IsPlaced 1 one_taken ((0, 1) ∷ []) (heap_malloc small_heap 100 one_taken)
heap_malloc-Served_example =
    heap_malloc-Served small_heap-IsPlaced 100 1 (omega arith) block_1_free one_taken-Holds

-- Every entry of the table is taken.
abbrev full : Mem
full a = 1

heap_malloc_exhausted_example :
    ((a : ℕ) (m' : Mem)
      → heap_malloc small_heap 45056 full ≡ some (a, m')
      → a ≡ add32 4096 4294918144)
    × (◌≡◌ {A = ℕ} 12 12
        → (heap_malloc small_heap 45056 full ≡ none)
          × ((rounds : ℕ) (m' : Mem)
              → mark_loop rounds small_heap (neg32 enomem) (sub32 (add32 (neg32 enomem) 12) 1) m'
                ≡ none))
heap_malloc_exhausted_example =
    heap_malloc_exhausted small_heap full 45056 (omega arith) (omega arith)
      λ j run. nothing_free j run
  where
    nothing_free : (j : ℕ) → FreeRun small_heap full j 12 → ⊥
    nothing_free j run = omega (arith, run.inside)

abbrev before_init : KernelHeap
before_init = record {
  kernel_heap = record { table = record { entries = 0; total_entries = 0 }; start_address = 0 };
  strategy = record { create = none; malloc = none; free = none };
}

Session-Holds_example :
    Holds the_heap (store (memset heap_table_address 0 25600 full) 0x01000000 7) []
Session-Holds_example =
    Session-Holds before_init
      (write 0x01000000 7 (start full (kheap_init_lem before_init full)) refl)

no_memory-Holds : Holds the_heap (λ a. 0) []
no_memory-Holds = record { entries = λ i lt. refl; in_table = tt; apart = tt }

some_room : FreeRun the_heap (λ a. 0) 5 1
unfolding is_free
some_room = record { inside = omega arith; free = λ i lt. refl }

kfree-kzalloc_example :
    let alloc = kernel_allocator before_init in
    (a : ℕ) × (m' m'' : Mem) × (alloc.kzalloc 100 (λ a. 0) ≡ some (a, m'))
    × Given 100 a (λ a. 0) m'
    × (a ≢ 0)
    × (a < 2 ^ 31)
    × (alloc.kfree a m' ≡ some m'')
    × Holds the_heap m'' []
kfree-kzalloc_example =
    kfree-kzalloc before_init 100 5 (λ a. 0) [] (omega arith) no_memory-Holds some_room
