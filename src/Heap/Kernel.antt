-- ===== src/Heap/Kernel.antt =====
-- kernel/mm/heap/heap_strategy_factory.cpp and kheap.cpp: the kernel's heap. A null function
-- pointer is `none`; calling one is a call that does not return.
pub mod Request
pub mod Room
pub mod Session
use mathlib.Core.Option
use n00b_os.Prelude.{ℕ, ◌+◌, ◌/◌, Option, none, some}
use n00b_os.Config.{heap_size_bytes, heap_block_size, heap_address, heap_table_address}
use n00b_os.Libc.Memory.{Mem, memset}
use n00b_os.Heap.{HeapTable, Heap}
use n00b_os.Heap.Create.{default_heap_create}
use n00b_os.Heap.FirstFit.{heap_malloc, heap_free}

pub data HeapAlgorithm : Type 0 where
  find_first unknown : HeapAlgorithm

pub record HeapStrategy : Type 0 where
  pub create : Option (Heap → ℕ → ℕ → HeapTable → Mem → ℕ × Heap × Mem)
  pub malloc : Option (Heap → ℕ → Mem → Option (ℕ × Mem))
  pub free : Option (Heap → ℕ → Mem → Mem)

unfoldable pub set_strategy : HeapStrategy → HeapStrategy
set_strategy strategy = record strategy { malloc = some heap_malloc; free = some heap_free }

unfoldable pub make_strategy : HeapAlgorithm → HeapStrategy → HeapStrategy
unfolding set_strategy
make_strategy find_first strategy = record (set_strategy strategy) {
  create = some default_heap_create;
}
make_strategy unknown strategy = record strategy { create = some default_heap_create }

-- The file's static variables: `kernel_heap` with the `kernel_heap_table` that it points to, and
-- `strategy`.
pub record KernelHeap : Type 0 where
  pub kernel_heap : Heap
  pub strategy : HeapStrategy

abbrev pub kernel_heap_table : HeapTable
kernel_heap_table = record {
  entries = heap_table_address;
  total_entries = heap_size_bytes / heap_block_size;
}

-- A failing `create` is not reported.
unfoldable pub kheap_init : KernelHeap → Mem → Option (KernelHeap × Mem)
unfolding make_strategy
kheap_init k m =
    let end_ptr = heap_address + heap_size_bytes in
    let strategy = make_strategy find_first k.strategy in
    Option.map
      (λ create.
        let (result, heap, m') = create k.kernel_heap heap_address end_ptr kernel_heap_table m in
        (record { kernel_heap = heap; strategy = strategy }, m'))
      strategy.create

unfoldable pub kmalloc : KernelHeap → ℕ → Mem → Option (ℕ × Mem)
unfolding Option.bind
kmalloc k size m = Option.bind k.strategy.malloc (λ malloc. malloc k.kernel_heap size m)

unfoldable pub kzalloc : KernelHeap → ℕ → Mem → Option (ℕ × Mem)
unfolding kmalloc memset
kzalloc k size m =
    Option.map (λ (allocated, m'). (allocated, memset allocated 0x00 size m')) (kmalloc k size m)

unfoldable pub kfree : KernelHeap → ℕ → Mem → Option Mem
kfree k ptr m = Option.map (λ free. free k.kernel_heap ptr m) k.strategy.free
