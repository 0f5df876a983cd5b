-- ===== src/Fs/Fat16/Directory/Lookup.antt =====
-- kernel/fs/fat/fat16.cpp: the search for an item of a directory and the way along a path to one. The
-- outer `none` is a call that does not return or that reads through a null pointer.
use mathlib.Core.Option
use n00b_os.Prelude.{ℕ, ◌+◌, not, ◌==◌, if◌then◌else◌, Option, none, some, List, [], ◌∷◌, bit_and}
use n00b_os.Config.{fs_max_path_size}
use n00b_os.Libc.Strings.{strcasecmp}
use n00b_os.Libc.Strings.Compare.{view}
use n00b_os.Disk.{Disk, SectorReader}
use n00b_os.Disk.Streamer.{Allocator}
use n00b_os.Fs.PathParser.{PathPart}
use n00b_os.Fs.Fat16.{FatPrivate, FatStreams, FatDirectory, FatDirectoryItem}
use n00b_os.Fs.Fat16.Item.{FatItem, directory, file, get_filename}
use n00b_os.Fs.Fat16.Directory.{
  fat_file_subdirectory, sizeof_fat_directory_item, sizeof_fat_item, clone_directory_item,
  load_directory, item_free,
}

module _ (d : Disk) (read_sector : SectorReader) (alloc : Allocator) where
  open alloc use {State, kzalloc, kfree}

  unfoldable pub new_item :
      ℕ
      → FatPrivate
      → FatDirectoryItem
      → FatStreams
      → State
      → Option (Option (ℕ × FatItem) × FatStreams × State)
  unfolding clone_directory_item Option.bind
  new_item fuel private_data directory_item streams s =
      Option.bind (kzalloc sizeof_fat_item s) (λ (address, s1).
        if address == 0
        then some (none, streams, s1)
        else if not (bit_and directory_item.attribute fat_file_subdirectory == 0)
        then Option.map (λ (dir, streams', s2). (some (address, directory dir), streams', s2))
            (load_directory d read_sector alloc fuel private_data directory_item streams s1)
        else Option.map
            (λ (copy, s2). (
              some (
                address,
                elim copy [ none ↦ file 0 directory_item | some (a, item) ↦ file a item ],
              ),
              streams,
              s2,
            ))
            (clone_directory_item d read_sector alloc directory_item sizeof_fat_directory_item s1))

  -- The array's items from the current one on. `name` is what stands behind the path part.
  unfoldable pub name_loop :
      ℕ
      → FatPrivate
      → List FatDirectoryItem
      → List ℕ
      → FatStreams
      → State
      → Option (Option (ℕ × FatItem) × FatStreams × State)
  unfolding Option.bind
  name_loop fuel private_data [] name streams s = some (none, streams, s)
  name_loop fuel private_data (item ∷ items) name streams s =
      let filename = get_filename item (λ i. 0) fs_max_path_size in
      Option.bind (strcasecmp (fs_max_path_size + 1) filename (view name)) (λ differs.
        let rest = name_loop fuel private_data items name streams s in
        if differs == 0 then new_item fuel private_data item streams s else rest)

  -- `item` holds `total` items.
  unfoldable pub find_item_in_directory :
      ℕ
      → FatPrivate
      → FatDirectory
      → Option (List ℕ)
      → FatStreams
      → State
      → Option (Option (ℕ × FatItem) × FatStreams × State)
  unfolding name_loop
  find_item_in_directory fuel private_data dir none streams s = elim dir.item [
    | [] ↦ some (none, streams, s)
    | item ∷ items ↦ none
  ]
  find_item_in_directory fuel private_data dir (some name) streams s =
      name_loop fuel private_data dir.item name streams s

  -- The loop of `get_item` at `current_item` with the parts that are left.
  unfoldable pub item_loop :
      ℕ
      → FatPrivate
      → Option (ℕ × FatItem)
      → List PathPart
      → FatStreams
      → State
      → Option (Option (ℕ × FatItem) × FatStreams × State)
  unfolding Option.bind
  item_loop fuel private_data current_item [] streams s = some (current_item, streams, s)
  item_loop fuel private_data none (part ∷ parts) streams s = none
  item_loop fuel private_data (some (address, file a item)) (part ∷ parts) streams s =
      some (none, streams, s)
  item_loop fuel private_data (some (address, directory none)) (part ∷ parts) streams s = none
  item_loop fuel private_data (some (address, directory (some (a, dir)))) (part ∷ parts) streams s =
      Option.bind (find_item_in_directory fuel private_data dir part.part_name streams s)
        (λ (tmp_item, streams', s').
          Option.bind (item_free d read_sector alloc (address, directory (some (a, dir))) s')
            (λ s''. item_loop fuel private_data tmp_item parts streams' s''))

  unfoldable pub get_item :
      ℕ
      → FatPrivate
      → PathPart
      → List PathPart
      → FatStreams
      → State
      → Option (Option (ℕ × FatItem) × FatStreams × State)
  unfolding item_loop Option.bind
  get_item fuel private_data part next_parts streams s =
      Option.bind
        (find_item_in_directory fuel private_data private_data.root_directory part.part_name streams
          s)
        (λ (root_item, streams', s'). elim root_item [
          | none ↦ some (none, streams', s')
          | some item ↦ item_loop fuel private_data (some item) next_parts streams' s'
        ])
