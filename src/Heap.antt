-- ===== src/Heap.antt =====
-- kernel/mm/heap: the heap's structures (heap.h) and the address arithmetic of
-- heap_utilities.cpp. The heap table and the heap's blocks lie in the byte memory; a block's entry
-- is the byte at `entries + idx`.
pub mod Create
pub mod FirstFit
pub mod Kernel
use n00b_os.Prelude.{ℕ, ◌+◌, ◌-◌, ◌*◌, ◌/◌, ◌%◌, ◌^◌, Bool, ◌==◌, bit_and, add32, sub32, mul32}
use n00b_os.Config.{heap_block_size}
use n00b_os.Libc.Memory.{Mem}

abbrev pub entry_taken : ℕ
entry_taken = 0x01

abbrev pub entry_free : ℕ
entry_free = 0x00

abbrev pub has_next : ℕ
has_next = 0b10000000

abbrev pub is_first : ℕ
is_first = 0b01000000

pub record HeapTable : Type 0 where
  pub entries : ℕ
  pub total_entries : ℕ

pub record Heap : Type 0 where
  pub table : HeapTable
  pub start_address : ℕ

unfoldable pub validate_alignment : ℕ → Bool
validate_alignment addr = addr % heap_block_size == 0

unfoldable pub align_to_upper : ℕ → ℕ
align_to_upper size =
    let remainder = size % heap_block_size in
    let leftover = sub32 heap_block_size remainder in add32 size leftover

unfoldable pub block_idx_2_block_address : Heap → ℕ → ℕ
block_idx_2_block_address heap block_idx =
    let data_offset = mul32 block_idx heap_block_size in add32 heap.start_address data_offset

unfoldable pub block_address_2_block_idx : Heap → ℕ → ℕ
block_address_2_block_idx heap addr =
    let data_offset = sub32 addr heap.start_address in data_offset / heap_block_size

unfoldable pub get_entry_type : ℕ → ℕ
get_entry_type entry = bit_and entry 0x0f

-- The address of `heap->table->entries[idx]`, and what it holds.
abbrev pub entry_address : Heap → ℕ → ℕ
entry_address heap idx = add32 heap.table.entries idx

abbrev pub entry : Heap → Mem → ℕ → ℕ
entry heap m idx = m (entry_address heap idx)
