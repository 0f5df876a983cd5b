-- ===== src/Heap/Create.antt =====
-- kernel/mm/heap/heap.cpp: creating a heap over a table.
use n00b_os.Prelude.{ℕ, ◌/◌, Bool, ◌&&◌, not, ◌==◌, if◌then◌else◌, sub32, neg32}
use n00b_os.Config.{heap_block_size, einval}
use n00b_os.Libc.Memory.{Mem, memset}
use n00b_os.Heap.{HeapTable, Heap, entry_free, validate_alignment}

unfoldable pub validate_heap_table : ℕ → ℕ → HeapTable → Bool
validate_heap_table start_ptr end_ptr table =
    let table_size = sub32 end_ptr start_ptr in
    let table_total_blocks = table_size / heap_block_size in
    table_total_blocks == table.total_entries

-- The result, and the heap and the memory behind the call.
unfoldable pub default_heap_create : Heap → ℕ → ℕ → HeapTable → Mem → ℕ × Heap × Mem
unfolding validate_alignment validate_heap_table memset
default_heap_create heap start_ptr end_ptr table m =
    if not (validate_alignment start_ptr && validate_alignment end_ptr)
    then (neg32 einval, heap, m)
    else let heap' : Heap = record { table = table; start_address = start_ptr } in
      if not (validate_heap_table start_ptr end_ptr table)
      then (neg32 einval, heap', m)
      else (0, heap', memset table.entries entry_free table.total_entries m)
