-- ===== src/Fs/Fat16/Volume.antt =====
-- The functions of `fat16_fs` of kernel/fs/fat/fat16.cpp as the file layer calls them, on the state
-- of the mounted disk. `none` is a call that does not return or that reads through a pointer to
-- nothing; a descriptor that was freed counts as nothing.
pub mod Boot
pub mod Open
pub mod Path
pub mod Read
pub mod Requests
pub mod Room
pub mod Seek
use mathlib.Core.Option
use n00b_os.Prelude.{
  codes, ℕ, ◌+◌, ◌-◌, ◌/◌, ◌%◌, ◌^◌, ◌++◌, get_or, ◌==◌, if◌then◌else◌, leb, Option, none, some,
  List, [], ◌∷◌,
}
use n00b_os.Libc.Memory.{Mem, within}
use n00b_os.Disk.{Disk, SectorReader, DiskPtr, primary, elsewhere}
use n00b_os.Disk.Streamer.{Allocator}
use n00b_os.Fs.PathParser.{PathPart}
use n00b_os.Fs.File.{FileMode, FileSystem}
use n00b_os.Fs.Fat16.{FatPrivate, FatStreams, FatDirectoryItem}
use n00b_os.Fs.Fat16.Directory.{sizeof_fat_directory_item}
use n00b_os.Fs.Fat16.Item.{FatItemDescriptor, FileStat, fat16_read, fat16_seek, fat16_stat}
use n00b_os.Fs.Fat16.Mount.{fat16_resolve}
use n00b_os.Fs.Fat16.Open.{fat16_open, fat16_close}

-- `primary_disk`, what its private data point to, the open descriptors by their addresses, the bytes
-- in memory, their structures for the data of a file, and the heap.
pub record Volume (State : Type 0) : Type 0 where
  pub disk : Disk
  pub mounted : Option (FatPrivate × FatStreams)
  pub descriptor_at : ℕ → Option FatItemDescriptor
  pub memory : Mem
  pub stat_at : ℕ → FileStat
  pub heap : State

-- The descriptor at `p` becomes `desc`.
abbrev pub set_descriptor :
    {State : Type 0} → ℕ → Option FatItemDescriptor → Volume State → Volume State
set_descriptor p desc v = record v {
  descriptor_at = λ q. if q == p then desc else v.descriptor_at q;
}

-- The buffer behind the pointer `p`, and the memory with another buffer there.
abbrev pub buffer_at : Mem → ℕ → ℕ → ℕ
buffer_at m p i = m (p + i)

abbrev pub put_buffer : Mem → ℕ → (ℕ → ℕ) → Mem
put_buffer m p output a = if leb p a then output (a - p) else m a

-- The kernel's heap as a part of this state.
abbrev pub volume_heap : Allocator → Allocator
volume_heap alloc = record {
  State = Volume alloc.State;
  kzalloc = λ size v. Option.map (λ (a, s). (a, record v { heap = s })) (alloc.kzalloc size v.heap);
  kfree = λ a v. Option.map (λ s. record v { heap = s }) (alloc.kfree a v.heap);
}

-- The bytes of a directory item, and the memory with items stored from address `p` on.
abbrev pub bytes16 : ℕ → List ℕ
bytes16 n = n % 256 ∷ n / 256 % 256 ∷ []

abbrev pub item_bytes : FatDirectoryItem → List ℕ
item_bytes item =
    item.filename
    ++ item.ext
    ++ (item.attribute ∷ item.reserved ∷ item.creation_time_tenths_of_a_second ∷ [])
    ++ bytes16 item.creation_time
    ++ bytes16 item.creation_date
    ++ bytes16 item.last_access
    ++ bytes16 item.hi_16bits_first_cluster
    ++ bytes16 item.last_modification_time
    ++ bytes16 item.last_modification_date
    ++ bytes16 item.lo_16bits_first_cluster
    ++ bytes16 (item.filesize % 2 ^ 16)
    ++ bytes16 (item.filesize / 2 ^ 16)

unfoldable pub store_items : ℕ → List FatDirectoryItem → Mem → Mem
store_items p [] m = m
store_items p (item ∷ items) m =
    store_items (p + sizeof_fat_directory_item) items (λ a.
      if within p sizeof_fat_directory_item a then get_or (item_bytes item) (a - p) 0 else m a)

-- The address of `fat16_fs`, and the name that `strcpy` puts there.
unfoldable pub fat16_init : ℕ → ℕ × List ℕ
fat16_init fs = (fs, codes "FAT16")

module _ (read_sector : SectorReader) (alloc : Allocator) (fuel fs : ℕ) where
  unfoldable pub open_volume :
      DiskPtr → List PathPart → FileMode → Volume alloc.State → Option (ℕ × Volume alloc.State)
  unfolding Option.bind
  open_volume (elsewhere d) path mode v = none
  open_volume primary [] mode v = none
  open_volume primary (part ∷ parts) mode v = Option.bind v.mounted (λ (private_data, streams).
      Option.map
        (λ (result, opened, streams', s).
          let kept : Volume alloc.State = record v {
            mounted = some (private_data, streams');
            heap = s;
          } in
          (
            result,
            elim opened [ none ↦ kept | some desc ↦ set_descriptor result (some desc) kept ],
          ))
        (fat16_open v.disk read_sector alloc fuel private_data part parts mode streams v.heap))

  unfoldable pub read_volume :
      DiskPtr → ℕ → ℕ → ℕ → ℕ → Volume alloc.State → Option (ℕ × Volume alloc.State)
  unfolding Option.bind
  read_volume (elsewhere d) private_data block_size num_blocks output v = none
  read_volume primary p block_size num_blocks output v =
      Option.bind v.mounted (λ (private_data, streams). Option.bind (v.descriptor_at p) (λ desc.
        Option.map
          (λ (result, buffer, streams', s). (
            result,
            record v {
              mounted = some (private_data, streams');
              memory = put_buffer v.memory output buffer;
              heap = s;
            },
          ))
          (fat16_read v.disk read_sector alloc private_data desc block_size num_blocks
            (buffer_at v.memory output) streams v.heap)))

  unfoldable pub seek_volume : ℕ → ℕ → ℕ → Volume alloc.State → Option (ℕ × Volume alloc.State)
  seek_volume p offset seek_mode v =
      Option.map
        (λ desc.
          let (result, desc') = fat16_seek desc offset seek_mode in
          (result, set_descriptor p (some desc') v))
        (v.descriptor_at p)

  unfoldable pub stat_volume :
      DiskPtr → ℕ → ℕ → Volume alloc.State → Option (ℕ × Volume alloc.State)
  stat_volume d p stat v =
      Option.map
        (λ desc.
          let (result, stat') = fat16_stat desc (v.stat_at stat) in
          (result, record v { stat_at = λ q. if q == stat then stat' else v.stat_at q }))
        (v.descriptor_at p)

  unfoldable pub close_volume : ℕ → Volume alloc.State → Option (ℕ × Volume alloc.State)
  unfolding Option.bind
  close_volume p v = Option.bind (v.descriptor_at p) (λ desc.
      Option.map
        (λ (result, s).
          let freed = set_descriptor p none v in
          (result, if result == 0 then record freed { heap = s } else record v { heap = s }))
        (fat16_close v.disk read_sector alloc (p, desc) v.heap))

  -- The items of the root directory are stored where its array lies, from address 0 on.
  unfoldable pub resolve_volume : DiskPtr → Volume alloc.State → Option (ℕ × Volume alloc.State)
  resolve_volume (elsewhere d) v = none
  resolve_volume primary v =
      Option.map
        (λ (result, disk, made, s). (
          result,
          record v {
            disk = disk;
            mounted = if disk.fs_private_data == 0 then none else made;
            memory = elim made [
              | none ↦ v.memory
              | some (private_data, _) ↦
                  let root = private_data.root_directory in
                  store_items root.item_address root.item v.memory
            ];
            heap = s;
          },
        ))
        (fat16_resolve v.disk read_sector alloc fuel fs v.disk v.heap)

  unfoldable pub fat16_fs : FileSystem (Volume alloc.State)
  unfolding open_volume read_volume seek_volume stat_volume close_volume resolve_volume
  fat16_fs = record {
    open_file = open_volume;
    read = read_volume;
    seek = seek_volume;
    stat = stat_volume;
    close = close_volume;
    resolve = resolve_volume;
  }
