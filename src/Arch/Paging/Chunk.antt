-- ===== src/Arch/Paging/Chunk.antt =====
-- kernel/arch/i386/paging/paging.cpp: making, freeing and switching to a page directory. The heap
-- comes through its interface; that `kzalloc` clears what it gives is a matter of its users here,
-- since every word is written before it is read. `none` is a call that does not return.
pub mod Table
pub mod Identity
use mathlib.Core.Option
use n00b_os.Prelude.{ℕ, zero, suc, ◌+◌, ◌*◌, Option, some, bit_and, bit_or, add32, mul32}
use n00b_os.Disk.Streamer.{Allocator}
use n00b_os.Arch.Paging.{
  Words, store_word, total_entries_per_table, page_size, is_writable, address_mask,
}

abbrev pub sizeof_paging_entry : ℕ
sizeof_paging_entry = 4

-- `paging_chunk`, a structure of one pointer.
pub record PagingChunk : Type 0 where
  pub directory_entry : ℕ

abbrev pub sizeof_paging_chunk : ℕ
sizeof_paging_chunk = 4

-- The inner loop of `paging_new`, from `table_idx` on with `k` rounds left.
unfoldable pub fill_table : ℕ → ℕ → ℕ → ℕ → ℕ → Words → Words
fill_table zero table_idx table offset flags w = w
fill_table (suc k) table_idx table offset flags w =
    let entry = bit_or (add32 offset (mul32 table_idx page_size)) flags in
    fill_table k (table_idx + 1) table offset flags
      (store_word w (add32 table (mul32 4 table_idx)) entry)

module _ (alloc : Allocator) where
  open alloc use {State, kzalloc, kfree}

  -- The outer loop, from `dir_idx` on with `k` rounds left.
  unfoldable pub fill_directory : ℕ → ℕ → ℕ → ℕ → ℕ → Words → State → Option (Words × State)
  unfolding Option.bind
  fill_directory zero dir_idx directory offset flags w s = some (w, s)
  fill_directory (suc k) dir_idx directory offset flags w s =
      Option.bind (kzalloc (sizeof_paging_entry * total_entries_per_table) s) (λ (table, s').
        let w' = fill_table total_entries_per_table 0 table offset flags w in
        let entry = bit_or (bit_or table flags) is_writable in
        fill_directory k (dir_idx + 1) directory
          (add32 offset (total_entries_per_table * page_size)) flags
          (store_word w' (add32 directory (mul32 4 dir_idx)) entry) s')

  -- The address of the chunk, and the chunk.
  unfoldable pub paging_new : ℕ → Words → State → Option (ℕ × PagingChunk × Words × State)
  unfolding Option.bind
  paging_new flags w s =
      Option.bind (kzalloc (sizeof_paging_entry * total_entries_per_table) s) (λ (directory, s1).
        Option.bind (fill_directory total_entries_per_table 0 directory 0 flags w s1) (λ (w', s2).
          Option.map (λ (chunk, s3). (chunk, record { directory_entry = directory }, w', s3))
            (kzalloc sizeof_paging_chunk s2)))

  -- The loop of `paging_free`, from `idx` on with `k` rounds left.
  unfoldable pub free_tables : ℕ → ℕ → ℕ → Words → State → Option State
  unfolding Option.bind
  free_tables zero idx directory w s = some s
  free_tables (suc k) idx directory w s =
      let dir_entry : ℕ = w (add32 directory (mul32 4 idx)) in
      Option.bind (kfree (bit_and dir_entry address_mask) s)
        (λ s'. free_tables k (idx + 1) directory w s')

  unfoldable pub paging_free : ℕ × PagingChunk → Words → State → Option State
  unfolding Option.bind
  paging_free (paging, chunk) w s =
      Option.bind (free_tables total_entries_per_table 0 chunk.directory_entry w s)
        (λ s1. Option.bind (kfree chunk.directory_entry s1) (λ s2. kfree paging s2))

-- The processor's page directory register and `current_directory`.
pub record PagingState : Type 0 where
  pub cr3 : ℕ
  pub current_directory : ℕ

unfoldable pub paging_switch : PagingChunk → PagingState
paging_switch chunk = record {
  cr3 = chunk.directory_entry;
  current_directory = chunk.directory_entry;
}
