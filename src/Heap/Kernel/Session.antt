-- ===== src/Heap/Kernel/Session.antt =====
-- The kernel's heap in use: what holds after `kheap_init` and any sequence of allocations and
-- releases, with the clients writing to their own memory in between.
use n00b_os.Prelude.{
  ℕ, ◌+◌, ◌-◌, ◌*◌, ◌/◌, ◌^◌, ◌<◌, ◌≡◌, refl, false, arith, if◌then◌else◌, Option, some, [], ◌∷◌,
  ◌++◌, subst,
}
use n00b_os.Config.{heap_address, heap_block_size, heap_table_address}
use n00b_os.Libc.Memory.{Mem, store, within, memset}
use n00b_os.Libc.Memory.Laws.{memset_lem}
use n00b_os.Heap.{Heap}
use n00b_os.Heap.Create.{default_heap_create}
use n00b_os.Heap.FirstFit.Search.{FreeRun}
use n00b_os.Heap.FirstFit.Marks.{IsPlaced}
use n00b_os.Heap.FirstFit.Live.{Blocks, Holds, Served, served, heap_malloc-Served}
use n00b_os.Heap.FirstFit.Release.{heap_free-Holds}
use n00b_os.Heap.Kernel.{
  KernelHeap, kernel_heap_table, make_strategy, find_first, kheap_init, kmalloc, kfree,
}

-- The kernel's heap as `kheap_init` sets it up.
abbrev pub the_heap : Heap
the_heap = record { table = kernel_heap_table; start_address = heap_address }

abbrev pub after_init : KernelHeap → KernelHeap
after_init k = record { kernel_heap = the_heap; strategy = make_strategy find_first k.strategy }

pub the_heap-IsPlaced : IsPlaced the_heap
the_heap-IsPlaced = omega arith

cleared :
    (m : Mem) (a : ℕ)
    → memset heap_table_address 0 25600 m a ≡ (if within heap_table_address 25600 a then 0 else m a)
cleared m a = memset_lem heap_table_address 0 25600 m a (omega arith)

pub kheap_init_lem :
    (k : KernelHeap) (m : Mem)
    → kheap_init k m ≡ some (after_init k, memset heap_table_address 0 25600 m)
unfolding kheap_init default_heap_create
kheap_init_lem k m = refl

cleared-Holds : (m : Mem) → Holds the_heap (memset heap_table_address 0 25600 m) []
cleared-Holds m = record {
  entries = λ i lt. ground (arith, cleared m (heap_table_address + i));
  in_table = tt;
  apart = tt;
}

cleared-kept :
    (m : Mem) (a : ℕ)
    → within heap_table_address 25600 a ≡ false
    → memset heap_table_address 0 25600 m a ≡ m a
cleared-kept m a out = ground (arith, cleared m a)

-- `kheap_init` succeeds from any memory and any state of its variables: the kernel's heap stands at
-- its configured addresses with no allocation live, and only the table's bytes are written.
pub kheap_init-Holds :
    (k : KernelHeap) (m : Mem)
    → (m' : Mem) × (kheap_init k m ≡ some (after_init k, m'))
      × Holds the_heap m' []
      × ((a : ℕ) → within heap_table_address 25600 a ≡ false → m' a ≡ m a)
kheap_init-Holds k m =
    (memset heap_table_address 0 25600 m, kheap_init_lem k m, cleared-Holds m, cleared-kept m)

Served-Holds :
    {n : ℕ} {m m' : Mem} {live : Blocks} {r : Option (ℕ × Mem)} (b : ℕ)
    → Served the_heap-IsPlaced n m live r
    → r ≡ some (heap_address + b * heap_block_size, m')
    → Holds the_heap m' ((b, n) ∷ live)
Served-Holds {n} {m' = g} {live} b (served c m' run first holds alloc) e =
    let address : heap_address + c * heap_block_size ≡ heap_address + b * heap_block_size = cc in
    let same : c ≡ b = omega arith in
    let mem : m' ≡ g = cc in subst (λ x. Holds the_heap x ((b, n) ∷ live)) mem (rw same at holds)

store-Holds :
    {m : Mem} {live : Blocks} (a v : ℕ)
    → Holds the_heap m live
    → within heap_table_address 25600 a ≡ false
    → Holds the_heap (store m a v) live
store-Holds a v was out = record {
  entries = λ i lt. ground (arith, was.entries i lt);
  in_table = was.in_table;
  apart = was.apart;
}

module _ (k : KernelHeap) where
  -- The memories that a run of the kernel reaches, with the allocations that are live in each:
  -- requests that find room, releases of live allocations, and writes outside the heap table.
  pub data Session : Mem → Blocks → Type 0 where
    start : (m : Mem) {m' : Mem} → kheap_init k m ≡ some (after_init k, m') → Session m' []
    allocate :
        {m : Mem} {live : Blocks} (size j b : ℕ) {m' : Mem}
        → Session m live
        → size < 2 ^ 32 - heap_block_size
        → FreeRun the_heap m j (size / heap_block_size + 1)
        → kmalloc (after_init k) size m ≡ some (heap_address + b * heap_block_size, m')
        → Session m' ((b, size / heap_block_size + 1) ∷ live)
    release :
        {m : Mem} (before behind : Blocks) (b n : ℕ) {m' : Mem} {live : Blocks}
        → Session m live
        → live ≡ before ++ (b, n) ∷ behind
        → kfree (after_init k) (heap_address + b * heap_block_size) m ≡ some m'
        → Session m' (before ++ behind)
    write :
        {m : Mem} {live : Blocks} (a v : ℕ)
        → Session m live
        → within heap_table_address 25600 a ≡ false
        → Session (store m a v) live

  -- At every point of a session the heap table lists exactly the live allocations, each inside the
  -- heap, and no two of them overlap.
  pub Session-Holds : {m : Mem} {live : Blocks} → Session m live → Holds the_heap m live
  unfolding kmalloc kfree make_strategy
  Session-Holds (start m {m'} e) =
      let (g, inits, holds, kept) = kheap_init-Holds k m in
      subst (λ x. Holds the_heap x []) (cc) holds
  Session-Holds (allocate size j b s small run e) =
      Served-Holds b (heap_malloc-Served the_heap-IsPlaced size j small run (Session-Holds s)) e
  Session-Holds (release before behind b n s split e) =
      let freed =
        heap_free-Holds b n behind before the_heap-IsPlaced (rw split at (Session-Holds s)) in
      subst (λ x. Holds the_heap x (before ++ behind)) (cc) freed.0
  Session-Holds (write a v s out) = store-Holds a v (Session-Holds s) out
