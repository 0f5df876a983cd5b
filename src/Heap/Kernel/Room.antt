-- ===== src/Heap/Kernel/Room.antt =====
-- How much room the kernel's heap of kernel/mm/heap/kheap.cpp has left.
use mathlib.Core.Option
use n00b_os.Prelude.{
  ℕ, suc, ◌+◌, ◌*◌, ◌/◌, ◌^◌, ◌<◌, ◌≤◌, ◌≡◌, ◌≢◌, refl, sym, ◌∙◌, arith, some, [], dec_lt,
}
use n00b_os.Config.{heap_address, heap_block_size}
use n00b_os.Libc.Memory.{Mem}
use n00b_os.Heap.{get_entry_type, entry_address}
use n00b_os.Heap.FirstFit.{is_free}
use n00b_os.Heap.FirstFit.Search.{FreeRun}
use n00b_os.Heap.FirstFit.Live.{Blocks, Holds, heap_malloc-Served}
use n00b_os.Heap.FirstFit.Release.{heap_free-Holds}
use n00b_os.Heap.Kernel.{KernelHeap, make_strategy, kmalloc, kzalloc, kfree}
use n00b_os.Heap.Kernel.Request.{kernel_allocator, Served-Given, kfree-kzalloc}
use n00b_os.Heap.Kernel.Session.{the_heap, the_heap-IsPlaced}

-- The table describes the live allocations, and `n` blocks in a row are free.
abbrev pub HasRoom : ℕ → Mem → Type 0
HasRoom n m = (live : Blocks) × Holds the_heap m live × (j : ℕ) × FreeRun the_heap m j n

-- Which blocks are free depends only on what the entries say.
FreeRun-same :
    {m m' : Mem} (j j' n : ℕ)
    → j' + n ≤ the_heap.table.total_entries
    → ((i : ℕ)
        → i < n
        → m' (the_heap.table.entries + (j' + i)) ≡ m (the_heap.table.entries + (j + i)))
    → FreeRun the_heap m j n
    → FreeRun the_heap m' j' n
unfolding is_free get_entry_type
FreeRun-same j j' n inside same run = record {
  inside = inside;
  free = λ i lt.
      let bound = run.inside in
      let at : entry_address the_heap (j + i) ≡ the_heap.table.entries + (j + i) = omega arith in
      let at' : entry_address the_heap (j' + i) ≡ the_heap.table.entries + (j' + i) = omega arith in
      ground (arith, same i lt, at, at', run.free i lt);
}

FreeRun-tail : {m : Mem} (j n : ℕ) → FreeRun the_heap m j (suc n) → FreeRun the_heap m (j + 1) n
FreeRun-tail j n run = record {
  inside = let inside = run.inside in omega arith;
  free = λ i lt.
      let at : j + 1 + i ≡ j + suc i = omega arith in rw at (run.free (suc i) (omega arith));
}

FreeRun-head : {m : Mem} (j n : ℕ) → FreeRun the_heap m j (suc n) → FreeRun the_heap m j 1
FreeRun-head j n run = record {
  inside = let inside = run.inside in omega arith;
  free = λ i lt. run.free i (omega arith);
}

-- A request and its release leave the room as it was.
pub kfree-kzalloc-HasRoom :
    (k : KernelHeap) (size : ℕ) (m : Mem)
    → size < heap_block_size
    → HasRoom 1 m
    → let alloc = kernel_allocator k in
      (a : ℕ) × (m' m'' : Mem) × (alloc.kzalloc size m ≡ some (a, m'))
      × (alloc.kfree a m' ≡ some m'')
      × HasRoom 1 m''
kfree-kzalloc-HasRoom k size m small (live, was, j, run) =
    let blocks : size / heap_block_size + 1 ≡ 1 = omega arith in
    let (a, m', m'', takes, given, nonzero, below, frees, is) =
      kfree-kzalloc k size j m live (omega arith) was (rw blocks run) in
    let bound = run.inside in
    let room =
      FreeRun-same {m = m} {m' = m''} j j 1 run.inside
        (λ i lt. is.entries (j + i) (omega arith) ∙ sym (was.entries (j + i) (omega arith))) run in
    (a, m', m'', takes, frees, (live, is, j, room))

-- A request of less than a block takes one block of the room, and its release gives it back.
pub kzalloc-HasRoom :
    (k : KernelHeap) (n size : ℕ) (m : Mem)
    → size < heap_block_size
    → HasRoom (suc n) m
    → (a : ℕ) × (m' m'' : Mem) × ((kernel_allocator k).kzalloc size m ≡ some (a, m'))
      × (a ≢ 0)
      × (a < 2 ^ 31)
      × HasRoom n m'
      × ((kernel_allocator k).kfree a m' ≡ some m'')
      × HasRoom (suc n) m''
unfolding kzalloc kmalloc kfree make_strategy Option.bind
kzalloc-HasRoom k n size m small (live, was, j, run) =
    let blocks : size / heap_block_size + 1 ≡ 1 = omega arith in
    let head : FreeRun the_heap m j (size / heap_block_size + 1) =
      rw blocks (FreeRun-head j n run) in
    let (b, m', takes, given, is, first) =
      Served-Given size (heap_malloc-Served the_heap-IsPlaced size j (omega arith) head was) in
    let start = given.above_start in
    let end = given.below_end in
    let bound = run.inside in
    let lowest : b ≤ j = elim (dec_lt j b) [
      | yes lt ↦ absurd (first j lt head)
      | no ge ↦ omega arith
    ] in
    let room =
      FreeRun-same {m = m} {m' = m'} (j + 1) (j + 1) n (omega arith)
        (λ i lt.
          is.entries (j + 1 + i) (omega arith)
          ∙ ground (arith, was.entries (j + 1 + i) (omega arith)))
        (FreeRun-tail j n run) in
    let (freed, _) = heap_free-Holds b (size / heap_block_size + 1) live [] the_heap-IsPlaced is in
    let room_again =
      FreeRun-same {m = m} j j (suc n) run.inside
        (λ i lt. freed.entries (j + i) (omega arith) ∙ sym (was.entries (j + i) (omega arith)))
        run in
    (
      heap_address + b * heap_block_size,
      m',
      _,
      takes,
      omega arith,
      omega arith,
      (_, is, j + 1, room),
      refl,
      (live, freed, j, room_again),
    )
