-- ===== src/Fs/Fat16/Volume/Read.antt =====
-- What a read of a file of the root directory delivers, through kernel/fs/file.cpp,
-- kernel/fs/fat/fat16.cpp and the disk streamer.
use mathlib.Core.Option
use n00b_os.Prelude.{
  ℕ, ◌+◌, ◌-◌, ◌*◌, ◌/◌, ◌^◌, ◌<◌, ◌≤◌, ◌≡◌, ◌≢◌, refl, ap, sym, subst, ==_of_ne, ==_refl, min,
  Option, some, List, [], ◌∷◌, All, length, set, bit_and, is_neg_small, mul32, zero_div, arith,
}
use n00b_os.Libc.Strings.{Str}
use n00b_os.Libc.Strings.Compare.{IsText}
use n00b_os.Libc.Memory.{Mem}
use n00b_os.Disk.{SectorReader, primary}
use n00b_os.Disk.Streamer.{Allocator, DiskStream}
use n00b_os.Disk.Streamer.Bytes.{byte_at, Delivers}
use n00b_os.Fs.PathParser.{max_path_length}
use n00b_os.Fs.PathParser.RoundTrip.{IsName, path_of}
use n00b_os.Fs.File.{
  FileTable, FileDescriptor, file_mode_read, str_2_filemode, free_index, get_file_descriptor, fopen,
  fread,
}
use n00b_os.Fs.Fat16.{FatPrivate, FatStreams, FatDirectoryItem}
use n00b_os.Fs.Fat16.Cluster.{get_first_cluster}
use n00b_os.Fs.Fat16.Cluster.Chain.{Chain, here, ServesIn, streams_at, fat_of, cluster_bytes}
use n00b_os.Fs.Fat16.Cluster.ReadInternal.{Filled, filled, data_start, read_internal-Filled}
use n00b_os.Fs.Fat16.Item.{file, fat16_read}
use n00b_os.Fs.Fat16.Directory.Find.{IsItem, FirstMatch}
use n00b_os.Fs.Fat16.Volume.{
  Volume, volume_heap, set_descriptor, buffer_at, put_buffer, read_volume, fat16_fs,
}
use n00b_os.Fs.Fat16.Volume.Open.{get_or-set_free, mount, descriptor_of, opened_at, fopen_file}
use n00b_os.Fs.Fat16.Volume.Requests.{ServingIn}

-- `n` bytes at `p` are those of the disk from `start` on, and all others stay.
pub data Delivered (byte : ℕ → ℕ) (m : Mem) (p start n : ℕ) {State : Type 0}
    : Option (ℕ × Volume State) → Type 0 where
  delivered :
      (v : Volume State)
      → ((i : ℕ) → i < n → v.memory (p + i) ≡ byte (start + i))
      → ((a : ℕ) → (a < p → v.memory a ≡ m a))
      → ((a : ℕ) → (p + n ≤ a → v.memory a ≡ m a))
      → Delivered byte m p start n (some (0, v))

pub get_file_descriptor-set :
    (t : FileTable) (idx : ℕ) (desc : FileDescriptor)
    → length t ≡ 512
    → free_index t 0 ≡ some idx
    → (idx < 512) × (get_file_descriptor (set t idx (some desc)) idx ≡ some desc)
unfolding get_file_descriptor
get_file_descriptor-set t idx desc size free =
    let (k, at, lt, reads) = get_or-set_free t 0 idx desc free in
    let same : idx ≡ k = omega arith in
    (omega arith, rw same (rw (is_neg_small k (omega arith)) (ground (arith, reads))))

name-IsText : (name : List ℕ) → IsName name → IsText name
name-IsText [] h = tt
name-IsText (c ∷ name) h = ((h.0.0, h.0.1), chars name h.1)
  where
    chars : (p : List ℕ) → All (λ c. (0 < c) × (c < 256) × (c ≢ b'/')) p → IsText p
    chars [] h = tt
    chars (c ∷ p) h = ((h.0.0, h.0.1), chars p h.1)

Delivered-from :
    {byte : ℕ → ℕ} {start n : ℕ} {directory : DiskStream} {State : Type 0} (v : Volume State)
    (private_data : FatPrivate) (p : ℕ) {r : Option (ℕ × (ℕ → ℕ) × FatStreams × State)}
    → Filled byte start n (buffer_at v.memory p) directory r
    → Delivered byte v.memory p start n (
        Option.map
          (λ x. (
            x.0,
            record v {
              mounted = some (private_data, x.2);
              memory = put_buffer v.memory p x.1;
              heap = x.3;
            },
          ))
          r)
Delivered-from {byte = byte} {start = start} {n = n} v private_data p (filled g q q' s h) =
    delivered _ (λ i lt. let at : p + i - p ≡ i = omega arith in rw at (ground (arith, h i)))
      (λ a lt. ground arith)
      (λ a ge. let at : p + (a - p) ≡ a = omega arith in ground (arith, h (a - p), ap v.memory at))

module _ (read_sector : SectorReader) (sector : ℕ → ℕ → ℕ) (limit : ℕ)
    (delivers : Delivers read_sector sector limit) (bytes : (p : ℕ) → byte_at sector p < 256)
    (alloc : Allocator) (Room : alloc.State → Type 0) (serves : ServesIn alloc Room) (fuel fs : ℕ)
    (private_data : FatPrivate)
    (reserved_small : private_data.header.primary_header.reserved_sectors < 0x10000)
    (table_inside : private_data.header.primary_header.reserved_sectors + 256 ≤ limit)
    (some_sectors : 0 < private_data.header.primary_header.sectors_per_cluster)
    (few : private_data.header.primary_header.sectors_per_cluster < 256)
    (limit_small : limit * 512 < 2 ^ 31) where
  -- A read at the position of an open file's descriptor.
  pub read_at :
      (v : Volume alloc.State) (p q q' output block_size num_blocks pos c : ℕ)
      (directory : DiskStream) (address a : ℕ) (item : FatDirectoryItem)
      → Room v.heap
      → v.disk.sector_size ≡ 512
      → get_first_cluster item < 0x10000
      → pos < 2 ^ 31
      → Chain
          (fat_of sector private_data)
          (pos / cluster_bytes private_data)
          (get_first_cluster item)
          c
      → 2 ≤ c
      → data_start private_data c pos + cluster_bytes private_data ≤ limit * 512
      → v.mounted ≡ some (private_data, streams_at q q' directory)
      → v.descriptor_at p ≡ some (record { item_address = address; item = file a item; pos = pos })
      → block_size * num_blocks ≤ cluster_bytes private_data
      → Delivered
          (byte_at sector)
          v.memory
          output
          (data_start private_data c pos)
          (block_size * num_blocks)
          (read_volume read_sector alloc fuel fs primary p block_size num_blocks output v)
  unfolding read_volume fat16_read Option.bind
  read_at v p q q' output block_size num_blocks pos c directory address a item room size small
        pos_small chain in_data inside mounted opened fits =
      let whole : mul32 block_size num_blocks ≡ block_size * num_blocks = omega arith in
      let all : min (cluster_bytes private_data) (block_size * num_blocks)
          ≡ block_size * num_blocks =
        ground arith in
      let fills =
        read_internal-Filled v.disk size read_sector sector limit delivers bytes alloc Room serves
          private_data reserved_small table_inside some_sectors few (get_first_cluster item) c pos
          small pos_small chain in_data inside limit_small (block_size * num_blocks) q q' directory
          (buffer_at v.memory output) v.heap room (omega arith) in
      rw (mounted, opened, whole) (Delivered-from v private_data output (rw all at fills))

module _ (read_sector : SectorReader) (sector : ℕ → ℕ → ℕ) (limit : ℕ)
    (delivers : Delivers read_sector sector limit) (bytes : (p : ℕ) → byte_at sector p < 256)
    (alloc : Allocator) (Room : ℕ → alloc.State → Type 0) (serves : ServesIn alloc (Room 1))
    (fuel fs : ℕ) (private_data : FatPrivate)
    (reserved_small : private_data.header.primary_header.reserved_sectors < 0x10000)
    (table_inside : private_data.header.primary_header.reserved_sectors + 256 ≤ limit)
    (some_sectors : 0 < private_data.header.primary_header.sectors_per_cluster)
    (few : private_data.header.primary_header.sectors_per_cluster < 256)
    (limit_small : limit * 512 < 2 ^ 31) where
  read_file :
      (v : Volume alloc.State) (p q q' output block_size num_blocks : ℕ) (directory : DiskStream)
      (address a : ℕ) (item : FatDirectoryItem)
      → Room 1 v.heap
      → v.disk.sector_size ≡ 512
      → get_first_cluster item < 0x10000
      → 2 ≤ get_first_cluster item
      → data_start private_data (get_first_cluster item) 0 + cluster_bytes private_data
        ≤ limit * 512
      → v.mounted ≡ some (private_data, streams_at q q' directory)
      → v.descriptor_at p ≡ some (opened_at address a item)
      → block_size * num_blocks ≤ cluster_bytes private_data
      → Delivered
          (byte_at sector)
          v.memory
          output
          (data_start private_data (get_first_cluster item) 0)
          (block_size * num_blocks)
          (read_volume read_sector alloc fuel fs primary p block_size num_blocks output v)
  read_file v p q q' output block_size num_blocks directory address a item room size small in_data
        inside mounted opened fits =
      let first = get_first_cluster item in
      let start : 0 / cluster_bytes private_data ≡ 0 = zero_div (cluster_bytes private_data) in
      let chain : Chain (fat_of sector private_data) (0 / cluster_bytes private_data) first first =
        subst (λ k. Chain (fat_of sector private_data) k first first) (sym start) here in
      read_at read_sector sector limit delivers bytes alloc (Room 1) serves fuel fs private_data
        reserved_small table_inside some_sectors few limit_small v p q q' output block_size
        num_blocks 0 first directory address a item room size small (omega arith) chain in_data
        inside mounted opened fits

  -- `fopen` of the path of a file in the root directory and `fread` of the descriptor it returns: the
  -- first gives the index of the first free entry and puts the file's descriptor there, the second
  -- returns 0 and delivers the first bytes of the file's first cluster, as they stand on the disk, and
  -- no others. For a mounted file system with 1 to 255 sectors per cluster whose table and this cluster
  -- lie on the disk, a first match of the name that is a file, a mode that opens for reading, fuel for
  -- a round of parse, blocks of no more than one cluster in all, a device that delivers the disk's
  -- 512-byte sectors, and a heap with room for eight requests, such as the kernel's with eight free
  -- blocks in a row.
  pub fread-fopen :
      ServingIn alloc Room
      → (rounds : ℕ) (v : Volume alloc.State) (table : FileTable) (name : List ℕ) (mode : Str)
        (item : FatDirectoryItem) (idx q q' output block_size num_blocks : ℕ)
        (directory : DiskStream)
      → Room 8 v.heap
      → 0 < rounds
      → v.disk.sector_size ≡ 512
      → v.disk.fs ≢ 0
      → length table ≡ 512
      → free_index table 0 ≡ some idx
      → str_2_filemode mode ≡ file_mode_read
      → IsName name
      → length (path_of 0 name []) ≤ max_path_length
      → All IsItem private_data.root_directory.item
      → FirstMatch name private_data.root_directory.item (some item)
      → bit_and item.attribute 0x10 ≡ 0
      → get_first_cluster item < 0x10000
      → 2 ≤ get_first_cluster item
      → data_start private_data (get_first_cluster item) 0 + cluster_bytes private_data
        ≤ limit * 512
      → block_size ≢ 0
      → num_blocks ≢ 0
      → block_size * num_blocks ≤ cluster_bytes private_data
      → (table' : FileTable) × (v' : Volume alloc.State) × (fopen
            (volume_heap alloc)
            (λ _. fat16_fs read_sector alloc fuel fs)
            rounds
            v.disk
            (path_of 0 name [])
            mode
            table
            (mount v private_data (streams_at q q' directory))
          ≡ some (idx, table', v'))
        × Delivered
            (byte_at sector)
            v.memory
            output
            (data_start private_data (get_first_cluster item) 0)
            (block_size * num_blocks)
            (fread
              (λ _. fat16_fs read_sector alloc fuel fs)
              table'
              output
              block_size
              num_blocks
              idx
              v')
  unfolding fread fat16_fs
  fread-fopen serving rounds v table name mode item idx q q' output block_size num_blocks directory
        room some_rounds size has_fs entries free reads is_name short are_items first is_file small
        in_data inside some_size some_blocks fits =
      let streams = streams_at q q' directory in
      let (p, address, a, s', opens, room') =
        fopen_file read_sector alloc Room serving fuel fs private_data rounds table idx v streams
          name mode item room some_rounds has_fs free reads is_name short (name-IsText name is_name)
          are_items first is_file in
      let desc = descriptor_of v.disk.fs idx p in
      let (below, gets) = get_file_descriptor-set table idx desc entries free in
      let v' =
        set_descriptor p (some (opened_at address a item))
          (record (mount v private_data streams) { heap = s' }) in
      let read =
        read_file v' p q q' output block_size num_blocks directory address a item room' size small
          in_data inside refl (rw (==_refl p) refl) fits in
      (
        set table idx (some desc),
        v',
        opens,
        rw (==_of_ne some_size, ==_of_ne some_blocks, is_neg_small idx (omega arith), gets) read,
      )
