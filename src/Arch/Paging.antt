-- ===== src/Arch/Paging.antt =====
-- kernel/arch/i386/paging: page directories and page tables. The entries are the words of a memory of
-- 32-bit words, each at its byte address, a multiple of 4. An `int` is its 32-bit pattern.
pub mod Walk
pub mod Map
pub mod Align
pub mod Chunk
use n00b_os.Prelude.{
  ℕ, zero, suc, ◌+◌, ◌-◌, ◌*◌, ◌/◌, ◌%◌, Bool, true, false, not, ◌==◌, if◌then◌else◌, ltb, Option,
  none, some, bit_and, bit_or, add32, sub32, mul32, neg32, sdiv, rounds,
}
use n00b_os.Config.{einval}

abbrev pub total_entries_per_table : ℕ
total_entries_per_table = 1024

abbrev pub page_size : ℕ
page_size = 4096

abbrev pub access_from_all : ℕ
access_from_all = 0b00000100

abbrev pub is_writable : ℕ
is_writable = 0b00000010

abbrev pub is_present : ℕ
is_present = 0b00000001

abbrev pub address_mask : ℕ
address_mask = 0xfffff000

-- The word at each address.
abbrev pub Words : Type 0
Words = ℕ → ℕ

abbrev pub store_word : Words → ℕ → ℕ → Words
store_word w a v b = if b == a then v else w b

unfoldable pub paging_is_aligned : ℕ → Bool
paging_is_aligned address = address % page_size == 0

-- The directory and table indices, or the error.
unfoldable pub paging_get_idxs : ℕ → ℕ × ℕ × ℕ
unfolding paging_is_aligned
paging_get_idxs virtual_address =
    if not (paging_is_aligned virtual_address) then (neg32 einval, 0, 0) else (
      0,
      virtual_address / (total_entries_per_table * page_size),
      virtual_address % (total_entries_per_table * page_size) / page_size,
    )

-- The address of `directory[directory_idx]`, and of the entry `table_idx` of the table it points to.
abbrev pub directory_slot : ℕ → ℕ → ℕ
directory_slot directory directory_idx = add32 directory (mul32 4 directory_idx)

unfoldable pub table_of : Words → ℕ → ℕ → ℕ
table_of w directory directory_idx =
    bit_and (w (directory_slot directory directory_idx)) address_mask

-- The result, and the words behind the call.
unfoldable pub paging_set : ℕ → ℕ → ℕ → Words → ℕ × Words
unfolding paging_get_idxs
paging_set directory virtual_address value w =
    let (result, directory_idx, table_idx) = paging_get_idxs virtual_address in
    if not (result == 0)
    then (result, w)
    else let table = table_of w directory directory_idx in
      (0, store_word w (add32 table (mul32 4 table_idx)) value)

-- The loop of the first `paging_map`, with `total_pages - page_idx` rounds left.
unfoldable pub map_loop : ℕ → ℕ → ℕ → ℕ → ℕ → Words → ℕ × Words
map_loop zero directory virtual_address physical_address flags w = (0, w)
map_loop (suc k) directory virtual_address physical_address flags w =
    let entry = bit_or physical_address flags in
    let (result, w') = paging_set directory virtual_address entry w in
    let rest =
      map_loop k directory (add32 virtual_address page_size) (add32 physical_address page_size)
        flags w' in
    if not (result == 0) then (result, w') else rest

unfoldable pub paging_map_pages : ℕ → ℕ → ℕ → ℕ → ℕ → Words → ℕ × Words
unfolding map_loop
paging_map_pages directory virtual_address physical_address total_pages flags w =
    map_loop (rounds total_pages) directory virtual_address physical_address flags w

-- `total_bytes` is a difference of two pointers to 4-byte entries.
unfoldable pub paging_map : ℕ → ℕ → ℕ → ℕ → ℕ → Words → ℕ × Words
unfolding paging_is_aligned paging_map_pages
paging_map directory virtual_address physical_address physical_address_end flags w =
    let total_bytes = sdiv (sub32 physical_address_end physical_address) 4 in
    let total_pages = total_bytes / page_size in
    if not (paging_is_aligned virtual_address)
    then (neg32 einval, w)
    else if not (paging_is_aligned physical_address)
    then (neg32 einval, w)
    else if not (paging_is_aligned physical_address_end)
    then (neg32 einval, w)
    else if ltb physical_address_end physical_address
    then (neg32 einval, w)
    else paging_map_pages directory virtual_address physical_address total_pages flags w

unfoldable pub paging_align : ℕ → ℕ
paging_align address =
    if not (address % page_size == 0)
    then add32 address (add32 (sub32 address (address % page_size)) page_size)
    else address
