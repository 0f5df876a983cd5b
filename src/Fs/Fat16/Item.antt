-- ===== src/Fs/Fat16/Item.antt =====
-- kernel/fs/fat/fat16.cpp: items, their names, and what the file system does on an open file. An
-- `int` is its 32-bit pattern, `pos` is unsigned. A buffer is a function from the index.
pub mod Name
use mathlib.Core.Option
use n00b_os.Prelude.{
  ℕ, zero, suc, ◌+◌, ◌*◌, ◌%◌, ◌^◌, Bool, true, false, not, ◌&&◌, ◌||◌, ◌==◌, if◌then◌else◌, ltb,
  Option, none, some, List, [], ◌∷◌, get_or, add32, mul32, neg32, bit_and,
}
use n00b_os.Config.{einval}
use n00b_os.Libc.Memory.{store}
use n00b_os.Disk.{Disk, SectorReader}
use n00b_os.Disk.Streamer.{Allocator}
use n00b_os.Fs.Fat16.{FatPrivate, FatStreams, FatDirectory, FatDirectoryItem}
use n00b_os.Fs.Fat16.Cluster.{get_first_cluster, read_internal}

-- The union with its tag: a directory or a file, by the structure it points to and its address; a
-- null pointer to a directory is `none`.
pub data FatItem : Type 0 where
  directory : Option (ℕ × FatDirectory) → FatItem
  file : ℕ → FatDirectoryItem → FatItem

-- `item` is a pointer: its address and the item there.
pub record FatItemDescriptor : Type 0 where
  pub item_address : ℕ
  pub item : FatItem
  pub pos : ℕ

-- The modes of `fs::file_seek_mode`.
abbrev pub seek_set : ℕ
seek_set = 0

abbrev pub seek_current : ℕ
seek_current = 1

abbrev pub seek_end : ℕ
seek_end = 2

abbrev pub file_stat_read_only : ℕ
file_stat_read_only = 1

pub record FileStat : Type 0 where
  pub flags : ℕ
  pub filesize : ℕ

-- The result, and the descriptor behind the call.
unfoldable pub fat16_seek : FatItemDescriptor → ℕ → ℕ → ℕ × FatItemDescriptor
fat16_seek fat16_desc offset seek_mode = elim fat16_desc.item [
  | directory _ ↦ (neg32 einval, fat16_desc)
  | file _ _ ↦
      if seek_mode == seek_set
      then (0, record fat16_desc { pos = offset })
      else if seek_mode == seek_end
      then (neg32 einval, fat16_desc)
      else if seek_mode == seek_current
      then (0, record fat16_desc { pos = add32 fat16_desc.pos offset })
      else (neg32 einval, fat16_desc)
]

-- The result, and the structure that was given behind the call.
unfoldable pub fat16_stat : FatItemDescriptor → FileStat → ℕ × FileStat
fat16_stat fat16_desc stat = elim fat16_desc.item [
  | directory _ ↦ (neg32 einval, stat)
  | file _ file_item ↦
      let sized : FileStat = record stat { filesize = file_item.filesize } in
      (
        0,
        if bit_and file_item.attribute file_stat_read_only == 0
            then sized
            else record sized { flags = file_stat_read_only },
      )
]

-- The descriptor is only read: `pos` stays.
unfoldable pub fat16_read :
    (d : Disk)
    → SectorReader
    → (alloc : Allocator) → FatPrivate
    → FatItemDescriptor
    → ℕ
    → ℕ
    → (ℕ → ℕ)
    → FatStreams
    → alloc.State
    → Option (ℕ × (ℕ → ℕ) × FatStreams × alloc.State)
fat16_read d read_sector alloc private_data fat16_desc block_size num_blocks output streams s =
    elim fat16_desc.item [
      | directory _ ↦ some (neg32 einval, output, streams, s)
      | file _ directory_item ↦
          read_internal d read_sector alloc private_data (get_first_cluster directory_item)
            fat16_desc.pos (mul32 block_size num_blocks) output streams s
    ]

-- The loop over `in`, with `idx` at its head: the buffer, and where `*out` stands.
unfoldable pub copy_until_space : List ℕ → (ℕ → ℕ) → ℕ → (ℕ → ℕ) × ℕ
copy_until_space [] buffer out = (buffer, out)
copy_until_space (c ∷ input) buffer out =
    let rest = copy_until_space input (store buffer out c) (out + 1) in
    if not (c == 0x00) && not (c == 0x20) then rest else (buffer, out)

unfoldable pub get_space_terminated_string : List ℕ → (ℕ → ℕ) → ℕ → (ℕ → ℕ) × ℕ
unfolding copy_until_space
get_space_terminated_string input buffer out =
    let (buffer', out') = copy_until_space input buffer out in
    if buffer' out' == 0x20 then (store buffer' out' 0x00, out') else (buffer', out')

-- The buffer behind the call.
unfoldable pub get_filename : FatDirectoryItem → (ℕ → ℕ) → ℕ → ℕ → ℕ
get_filename directory_item out max_length =
    let cleared : ℕ → ℕ = λ i. if ltb i max_length then 0x00 else out i in
    let (named, out_tmp) = get_space_terminated_string directory_item.filename cleared 0 in
    let first = get_or directory_item.ext 0 0 in
    if not (first == 0x00) && not (first == 0x20)
    then (get_space_terminated_string directory_item.ext (store named out_tmp b'.') (out_tmp + 1)).0
    else named
