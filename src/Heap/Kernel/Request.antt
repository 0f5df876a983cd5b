-- ===== src/Heap/Kernel/Request.antt =====
-- The kernel's heap of kernel/mm/heap/kheap.cpp behind the interface that the disk streamer, the file
-- system, paging and the processes take.
use mathlib.Core.Option
use n00b_os.Prelude.{
  ℕ, ◌+◌, ◌-◌, ◌*◌, ◌/◌, ◌^◌, ◌<◌, ◌≤◌, ◌≡◌, ◌≢◌, refl, false, Option, some, [], ◌∷◌, arith,
}
use n00b_os.Config.{heap_address, heap_block_size, heap_size_bytes, heap_table_address}
use n00b_os.Libc.Memory.{Mem, within, memset}
use n00b_os.Libc.Memory.Laws.{memset_lem}
use n00b_os.Disk.Streamer.{Allocator}
use n00b_os.Heap.FirstFit.Search.{FreeRun}
use n00b_os.Heap.FirstFit.Live.{Blocks, Holds, Served, served, heap_malloc-Served}
use n00b_os.Heap.FirstFit.Release.{heap_free-Holds}
use n00b_os.Heap.Kernel.{KernelHeap, make_strategy, kmalloc, kzalloc, kfree}
use n00b_os.Heap.Kernel.Session.{the_heap, after_init, the_heap-IsPlaced}

-- The memory is the state; the heap's variables do not change after `kheap_init`.
abbrev pub kernel_allocator : KernelHeap → Allocator
kernel_allocator k = record {
  State = Mem;
  kzalloc = λ size m. kzalloc (after_init k) size m;
  kfree = λ ptr m. kfree (after_init k) ptr m;
}

-- What a request for `size` bytes gets at `a`.
pub record Given (size a : ℕ) (m m' : Mem) : Type 0 where
  pub above_start : heap_address ≤ a
  pub below_end : a + size ≤ heap_address + heap_size_bytes
  pub zeroed : (i : ℕ) → i < size → m' (a + i) ≡ 0
  pub kept :
      (x : ℕ)
      → within heap_table_address 25600 x ≡ false
      → within a ((size / heap_block_size + 1) * heap_block_size) x ≡ false
      → m' x ≡ m x

-- A write inside the heap leaves the table as it is.
memset-Holds :
    (p size : ℕ) {m : Mem} {live : Blocks}
    → heap_address ≤ p
    → p + size ≤ heap_address + heap_size_bytes
    → Holds the_heap m live
    → Holds the_heap (memset p 0 size m) live
memset-Holds p size {m} above below was = record {
  entries = λ i lt.
      ground
        (arith, memset_lem p 0 size m (heap_table_address + i) (omega arith), was.entries i lt);
  in_table = was.in_table;
  apart = was.apart;
}

pub Served-Given :
    (size : ℕ) {m : Mem} {live : Blocks} {r : Option (ℕ × Mem)}
    → Served the_heap-IsPlaced (size / heap_block_size + 1) m live r
    → (b : ℕ) × (m' : Mem) × (Option.map {B = ℕ × Mem}
          (λ (allocated, g). (allocated, memset allocated 0x00 size g))
          r
        ≡ some (heap_address + b * heap_block_size, m'))
      × Given size (heap_address + b * heap_block_size) m m'
      × Holds the_heap m' ((b, size / heap_block_size + 1) ∷ live)
      × ((j : ℕ) → j < b → ¬ FreeRun the_heap m j (size / heap_block_size + 1))
Served-Given size {m} (served b g run first holds alloc) =
    let a = heap_address + b * heap_block_size in
    let inside = run.inside in
    let below : a + size ≤ heap_address + heap_size_bytes = omega arith in
    (
      b,
      memset a 0 size g,
      refl,
      record {
        above_start = omega arith;
        below_end = below;
        zeroed = λ i lt. ground (arith, memset_lem a 0 size g (a + i) (omega arith));
        kept = λ x out away.
            ground (arith, memset_lem a 0 size g x (omega arith), alloc.kept x out away);
      },
      memset-Holds a size (omega arith) below holds,
      first,
    )

-- A request of the kernel's heap that finds room gets zeroed bytes inside the heap at an address that
-- is neither null nor an error, and writes nothing but these blocks and the table; and once it is
-- released the same allocations are live as before. For fewer than 2 ^ 32 - 4096 bytes.
pub kfree-kzalloc :
    (k : KernelHeap) (size j : ℕ) (m : Mem) (live : Blocks)
    → size < 2 ^ 32 - heap_block_size
    → Holds the_heap m live
    → FreeRun the_heap m j (size / heap_block_size + 1)
    → let alloc = kernel_allocator k in
      (a : ℕ) × (m' m'' : Mem) × (alloc.kzalloc size m ≡ some (a, m'))
      × Given size a m m'
      × (a ≢ 0)
      × (a < 2 ^ 31)
      × (alloc.kfree a m' ≡ some m'')
      × Holds the_heap m'' live
unfolding kzalloc kmalloc kfree make_strategy Option.bind
kfree-kzalloc k size j m live small was run =
    let (b, m', takes, given, holds, _) =
      Served-Given size (heap_malloc-Served the_heap-IsPlaced size j small run was) in
    let (freed, rest) =
      heap_free-Holds b (size / heap_block_size + 1) live [] the_heap-IsPlaced holds in
    let start = given.above_start in
    let end = given.below_end in
    (heap_address + b * heap_block_size, m', _, takes, given, omega arith, omega arith, refl, freed)
