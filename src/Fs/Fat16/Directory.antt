-- ===== src/Fs/Fat16/Directory.antt =====
-- kernel/fs/fat/fat16.cpp: directories on disk, how they are read and freed. The outer `none`
-- is a call that does not return or that reads through a null pointer. A pointer to a structure is
-- the pair of its address and the structure, `none` for null.
pub mod Count
pub mod Lookup
pub mod Find
pub mod Entries
pub mod Load
pub mod Missing
use mathlib.Core.Option
use n00b_os.Prelude.{
  ℕ, zero, suc, ◌+◌, ◌*◌, Bool, false, not, ◌==◌, if◌then◌else◌, ltb, Option, none, some, List, [],
  ◌∷◌, ◌++◌, get_or, tabulate, add32, mul32, is_neg, rounds, bit_and,
}
use n00b_os.Config.{fs_max_path_size}
use n00b_os.Libc.Strings.{strcasecmp}
use n00b_os.Libc.Strings.Compare.{view}
use n00b_os.Disk.{Disk, SectorReader}
use n00b_os.Disk.Streamer.{Allocator, DiskStream, seek, read}
use n00b_os.Fs.PathParser.{PathPart}
use n00b_os.Fs.Fat16.{FatPrivate, FatStreams, FatDirectory, FatDirectoryItem}
use n00b_os.Fs.Fat16.Cluster.{get_first_cluster, cluster_to_sector, read_internal}
use n00b_os.Fs.Fat16.Item.{FatItem, directory, file, get_filename}

abbrev pub fat_file_subdirectory : ℕ
fat_file_subdirectory = 0x10

abbrev pub sizeof_fat_directory_item : ℕ
sizeof_fat_directory_item = 32

abbrev pub sizeof_fat_directory : ℕ
sizeof_fat_directory = 16

abbrev pub sizeof_fat_item : ℕ
sizeof_fat_item = 8

-- Fields of a packed structure, from the bytes `f` of it.
abbrev pub le16 : (ℕ → ℕ) → ℕ → ℕ
le16 f i = f i + f (i + 1) * 256

abbrev pub le32 : (ℕ → ℕ) → ℕ → ℕ
le32 f i = le16 f i + le16 f (i + 2) * 65536

-- The directory item that stands at byte `p`.
unfoldable pub item_at : (ℕ → ℕ) → ℕ → FatDirectoryItem
item_at f p = record {
  filename = tabulate f p 8;
  ext = tabulate f (p + 8) 3;
  attribute = f (p + 11);
  reserved = f (p + 12);
  creation_time_tenths_of_a_second = f (p + 13);
  creation_time = le16 f (p + 14);
  creation_date = le16 f (p + 16);
  last_access = le16 f (p + 18);
  hi_16bits_first_cluster = le16 f (p + 20);
  last_modification_time = le16 f (p + 22);
  last_modification_date = le16 f (p + 24);
  lo_16bits_first_cluster = le16 f (p + 26);
  filesize = le32 f (p + 28);
}

-- The `k` items from byte `p` on.
unfoldable pub items_at : ℕ → (ℕ → ℕ) → ℕ → List FatDirectoryItem
items_at zero f p = []
items_at (suc k) f p = item_at f p ∷ items_at k f (p + sizeof_fat_directory_item)

-- The first byte of the name, which marks the end of a directory and its unused items.
abbrev pub mark : FatDirectoryItem → ℕ
mark item = get_or item.filename 0 0

module _ (d : Disk) (read_sector : SectorReader) (alloc : Allocator) where
  open alloc use {State, kzalloc, kfree}

  -- A pointer to a copy, null where `size` is too small.
  unfoldable pub clone_directory_item :
      FatDirectoryItem → ℕ → State → Option (Option (ℕ × FatDirectoryItem) × State)
  clone_directory_item directory_item size s =
      if ltb size sizeof_fat_directory_item
      then some (none, s)
      else Option.map (λ (copy, s'). (if copy == 0 then none else some (copy, directory_item), s'))
          (kzalloc size s)

  -- The loop of `get_directory_total_items` on fuel: the count or the error, and the items written to
  -- `directory->item`, where `populate` says whether there is a directory.
  unfoldable pub count_loop :
      ℕ
      → Bool
      → ℕ
      → List FatDirectoryItem
      → DiskStream
      → State
      → Option (ℕ × List FatDirectoryItem × DiskStream × State)
  unfolding clone_directory_item Option.bind
  count_loop zero populate num_items items stream s = none
  count_loop (suc fuel) populate num_items items stream s =
      Option.bind (read d read_sector alloc stream sizeof_fat_directory_item s)
        (λ (result, bytes, stream', s').
          let item = item_at (λ i. get_or bytes i 0) 0 in
          let skip = count_loop fuel populate num_items items stream' s' in
          let keep = count_loop fuel populate (add32 num_items 1) items stream' s' in
          let kept =
            Option.bind (clone_directory_item item sizeof_fat_directory_item s') (λ (copy, s'').
              elim copy [
                | none ↦ none
                | some c ↦
                    count_loop fuel populate (add32 num_items 1) (items ++ c.1 ∷ []) stream' s''
              ]) in
          if not (result == 0)
          then some (result, items, stream', s')
          else if mark item == 0x00
          then some (num_items, items, stream', s')
          else if mark item == 0xE5
          then skip
          else if populate
          then kept
          else keep)

  unfoldable pub get_directory_total_items :
      ℕ → ℕ → Bool → FatStreams → State → Option (ℕ × List FatDirectoryItem × FatStreams × State)
  unfolding seek
  get_directory_total_items fuel directory_start_sector populate streams s =
      let directory_start_pos = mul32 directory_start_sector d.sector_size in
      let (result, stream) = seek streams.directory_read_stream directory_start_pos in
      if not (result == 0)
      then some (result, [], record streams { directory_read_stream = stream }, s)
      else Option.map
          (λ (result', items, stream', s').
            (result', items, record streams { directory_read_stream = stream' }, s'))
          (count_loop fuel populate 0 [] stream s)

  -- The loop of `directory_free`, which frees the addresses of the elements, with `k` rounds left.
  unfoldable pub free_items : ℕ → ℕ → State → Option State
  unfolding Option.bind
  free_items zero item_address s = some s
  free_items (suc k) item_address s =
      let next = add32 item_address sizeof_fat_directory_item in
      let rest = free_items k next s in
      let freed = Option.bind (kfree item_address s) (λ s'. free_items k next s') in
      if not (item_address == 0) then freed else rest

  unfoldable pub directory_free : Option (ℕ × FatDirectory) → State → Option State
  unfolding Option.bind
  directory_free none s = some s
  directory_free (some (address, dir)) s =
      Option.bind (free_items (rounds dir.total) dir.item_address s) (λ s'. kfree address s')

  unfoldable pub item_free : ℕ × FatItem → State → Option State
  unfolding directory_free Option.bind
  item_free (address, directory dir) s = Option.bind (directory_free dir s) (λ s'. kfree address s')
  item_free (address, file item_address item) s =
      Option.bind (kfree item_address s) (λ s'. kfree address s')

  -- What `load_directory` does once the directory's structure is allocated at `address`.
  unfoldable pub load_items :
      ℕ
      → FatPrivate
      → ℕ
      → ℕ
      → FatStreams
      → State
      → Option (Option (ℕ × FatDirectory) × FatStreams × State)
  unfolding Option.bind directory_free
  load_items fuel private_data cluster address streams s =
      let sector = cluster_to_sector private_data cluster in
      Option.bind (get_directory_total_items fuel sector false streams s)
        (λ (total_items, _, streams1, s1).
          let directory_size = mul32 total_items sizeof_fat_directory_item in
          Option.bind (kzalloc directory_size s1) (λ (item_address, s2).
            let with_items : List FatDirectoryItem → FatDirectory = λ items. record {
              item_address = item_address;
              item = items;
              total = total_items;
              sector_pos = 0;
              sector_pos_end = 0;
            } in
            if item_address == 0
            then Option.map (λ s3. (none, streams1, s3))
                (directory_free (some (address, with_items [])) s2)
            else Option.bind
                (read_internal d read_sector alloc private_data cluster 0x00 directory_size (λ i. 0)
                  streams1 s2)
                (λ (result, buffer, streams2, s3).
                  let dir = with_items (items_at (rounds total_items) buffer 0) in
                  if is_neg result
                  then Option.map (λ s4. (none, streams2, s4))
                      (directory_free (some (address, dir)) s3)
                  else some (some (address, dir), streams2, s3))))

  unfoldable pub load_directory :
      ℕ
      → FatPrivate
      → FatDirectoryItem
      → FatStreams
      → State
      → Option (Option (ℕ × FatDirectory) × FatStreams × State)
  unfolding load_items Option.bind
  load_directory fuel private_data directory_item streams s =
      if bit_and directory_item.attribute fat_file_subdirectory == 0
      then some (none, streams, s)
      else Option.bind (kzalloc sizeof_fat_directory s) (λ (address, s').
        if address == 0
        then some (none, streams, s')
        else load_items fuel private_data (get_first_cluster directory_item) address streams s')
