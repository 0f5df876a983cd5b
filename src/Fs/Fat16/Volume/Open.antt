-- ===== src/Fs/Fat16/Volume/Open.antt =====
-- How a file of the root directory is opened through kernel/fs/file.cpp and kernel/fs/fat/fat16.cpp.
use mathlib.Core.Option
use n00b_os.Prelude.{
  ℕ, suc, ◌+◌, ◌^◌, ◌<◌, ◌≤◌, ◌≡◌, ◌≢◌, refl, ◌∙◌, ap, ==_of_ne, Option, none, some, List, [], ◌∷◌,
  All, length, get_or, set, bit_and, is_neg_small, arith,
}
use n00b_os.Libc.Strings.{Str}
use n00b_os.Libc.Strings.Compare.{IsText}
use n00b_os.Disk.{Disk, SectorReader, primary, get}
use n00b_os.Disk.Streamer.{Allocator}
use n00b_os.Fs.PathParser.{max_path_length}
use n00b_os.Fs.PathParser.Requests.{request}
use n00b_os.Fs.PathParser.RoundTrip.{IsName, path_of, named}
use n00b_os.Fs.File.{
  FileTable, FileDescriptor, file_mode_read, str_2_filemode, free_index, new_file_descriptor,
  open_on_disk, fopen,
}
use n00b_os.Fs.Fat16.{FatPrivate, FatStreams, FatDirectoryItem}
use n00b_os.Fs.Fat16.Item.{file, FatItemDescriptor}
use n00b_os.Fs.Fat16.Directory.{clone_directory_item}
use n00b_os.Fs.Fat16.Directory.Lookup.{new_item, item_loop, get_item}
use n00b_os.Fs.Fat16.Directory.Find.{
  IsItem, FirstMatch, no_match, match_here, match_later, made_of, find_item_in_directory-FirstMatch,
}
use n00b_os.Fs.Fat16.Open.{fat16_open}
use n00b_os.Fs.Fat16.Volume.Requests.{ServingIn, request_volume, parse_volume}
use n00b_os.Fs.Fat16.Volume.{Volume, volume_heap, set_descriptor, open_volume, fat16_fs}

pub FirstMatch-unique :
    {name : List ℕ} {items : List FatDirectoryItem} {r r' : Option FatDirectoryItem}
    → FirstMatch name items r
    → FirstMatch name items r'
    → r ≡ r'
FirstMatch-unique no_match no_match = refl
FirstMatch-unique (match_here h) (match_here h') = refl
FirstMatch-unique (match_here h) (match_later h' k) = absurd (h' h)
FirstMatch-unique (match_later h k) (match_here h') = absurd (h h')
FirstMatch-unique (match_later h k) (match_later h' k') = FirstMatch-unique k k'

less_than_block : (8 < 4096) × (32 < 4096)
less_than_block = (omega arith, omega arith)

-- The entry that `new_file_descriptor` takes is read back from the table.
pub get_or-set_free :
    (t : FileTable) (base idx : ℕ) (desc : FileDescriptor)
    → free_index t base ≡ some idx
    → (k : ℕ) × (idx ≡ base + k)
      × (k < length t)
      × (get_or (set t k (some desc)) k none ≡ some desc)
unfolding free_index
get_or-set_free [] base idx desc h = cc
get_or-set_free (none ∷ t) base idx desc h = (0, ground arith, omega arith, refl)
get_or-set_free (some x ∷ t) base idx desc h =
    let (k, at, lt, reads) = get_or-set_free t (base + 1) idx desc h in
    (suc k, omega arith, omega arith, reads)

module _ (d : Disk) (read_sector : SectorReader) (alloc : Allocator)
    (Room : ℕ → alloc.State → Type 0) (serving : ServingIn alloc Room) (fuel : ℕ)
    (private_data : FatPrivate) where
  pub new_item_file :
      (k : ℕ) (item : FatDirectoryItem) (streams : FatStreams) (s : alloc.State)
      → Room (suc (suc k)) s
      → bit_and item.attribute 0x10 ≡ 0
      → (address a : ℕ) × (s' : alloc.State) × (new_item d read_sector alloc fuel private_data item
            streams s
          ≡ some (some (address, file a item), streams, s'))
        × Room k s'
  unfolding new_item clone_directory_item Option.bind
  new_item_file k item streams s room is_file =
      let (address, s1, _, first, nonzero, _, room1, _, _) =
        serving (suc k) 8 s less_than_block.0 room in
      let (a, s2, _, second, nonzero', _, room2, _, _) = serving k 32 s1 less_than_block.1 room1 in
      (address, a, s2, rw (first, ==_of_ne nonzero, is_file, second, ==_of_ne nonzero') refl, room2)

  fat16_open_lem :
      (k : ℕ) (name : List ℕ) (item : FatDirectoryItem) (streams : FatStreams) (s : alloc.State)
      → Room (suc (suc (suc k))) s
      → IsText name
      → All IsItem private_data.root_directory.item
      → FirstMatch name private_data.root_directory.item (some item)
      → bit_and item.attribute 0x10 ≡ 0
      → (p address a : ℕ) × (s' : alloc.State) × (fat16_open d read_sector alloc fuel private_data
            (named name)
            []
            file_mode_read
            streams
            s
          ≡ some (
            p,
            some (record { item_address = address; item = file a item; pos = 0 }),
            streams,
            s',
          ))
        × (p < 2 ^ 31)
        × Room k s'
  unfolding fat16_open get_item item_loop Option.bind
  fat16_open_lem k name item streams s room text are_items first is_file =
      let (p, s1, _, served, nonzero, small, room1, _, _) =
        serving (suc (suc k)) 8 s (omega arith) room in
      let (r, matched, finds) =
        find_item_in_directory-FirstMatch d read_sector alloc fuel private_data
          private_data.root_directory name streams s1 are_items text in
      let (address, a, s2, makes, room2) = new_item_file k item streams s1 room1 is_file in
      let finds' =
        finds
        ∙ ap (made_of d read_sector alloc fuel private_data streams s1)
            (FirstMatch-unique matched first)
        ∙ makes in
      (p, address, a, s2, rw (served, ==_of_ne nonzero, finds') refl, small, room2)

new_file_descriptor-free :
    (heap : Allocator) (t : FileTable) (descriptor : ℕ → FileDescriptor) (idx a : ℕ)
    (w w' : heap.State)
    → free_index t 0 ≡ some idx
    → request heap 16 w ≡ some (a, w')
    → new_file_descriptor heap t descriptor w
      ≡ some (0, (idx, set t idx (some (descriptor idx))), w')
unfolding new_file_descriptor
new_file_descriptor-free heap t descriptor idx a w w' free takes =
    rw (free, new_file_descriptor, takes) refl

-- The volume with these private data and streams.
abbrev pub mount : {State : Type 0} → Volume State → FatPrivate → FatStreams → Volume State
mount v private_data streams = record v { mounted = some (private_data, streams) }

-- The entry of the table for a file at `p`.
abbrev pub descriptor_of : ℕ → ℕ → ℕ → FileDescriptor
descriptor_of fs idx p = record { index = idx; fs = fs; private_data = p; d = primary }

-- The descriptor of a file that was just opened.
abbrev pub opened_at : ℕ → ℕ → FatDirectoryItem → FatItemDescriptor
opened_at address a item = record { item_address = address; item = file a item; pos = 0 }

module _ (read_sector : SectorReader) (alloc : Allocator) (Room : ℕ → alloc.State → Type 0)
    (serving : ServingIn alloc Room) (fuel fs : ℕ) (private_data : FatPrivate) where
  pub fopen_file :
      (rounds : ℕ) (table : FileTable) (idx : ℕ) (v : Volume alloc.State) (streams : FatStreams)
      (name : List ℕ) (mode : Str) (item : FatDirectoryItem)
      → Room 8 v.heap
      → 0 < rounds
      → v.disk.fs ≢ 0
      → free_index table 0 ≡ some idx
      → str_2_filemode mode ≡ file_mode_read
      → IsName name
      → length (path_of 0 name []) ≤ max_path_length
      → IsText name
      → All IsItem private_data.root_directory.item
      → FirstMatch name private_data.root_directory.item (some item)
      → bit_and item.attribute 0x10 ≡ 0
      → (p address a : ℕ) × (s' : alloc.State) × (fopen
            (volume_heap alloc)
            (λ _. fat16_fs read_sector alloc fuel fs)
            rounds
            v.disk
            (path_of 0 name [])
            mode
            table
            (mount v private_data streams)
          ≡ some (
            idx,
            set table idx (some (descriptor_of v.disk.fs idx p)),
            set_descriptor p
                (some (opened_at address a item))
                (record (mount v private_data streams) { heap = s' }),
          ))
        × Room 1 s'
  unfolding fopen open_on_disk fat16_fs open_volume get Option.bind
  fopen_file rounds table idx v streams name mode item room some_rounds has_fs free reads is_name
        short text are_items first is_file =
      let (s1, parses, room1) =
        parse_volume alloc Room serving rounds name (mount v private_data streams) room some_rounds
          is_name short in
      let (p, address, a, s2, opens, small, room2) =
        fat16_open_lem v.disk read_sector alloc Room serving fuel private_data 2 name item streams
          s1 room1 text are_items first is_file in
      let opened =
        set_descriptor p (some (opened_at address a item))
          (record (mount v private_data streams) { heap = s2 }) in
      let (_, s3, takes, room3) =
        request_volume alloc Room serving 1 16 opened (omega arith) room2 in
      let made =
        new_file_descriptor-free (volume_heap alloc) table (λ i. descriptor_of v.disk.fs i p) idx _
          opened (record opened { heap = s3 }) free takes in
      (
        p,
        address,
        a,
        s3,
        rw
            (
              parses,
              ==_of_ne has_fs,
              reads,
              opens,
              is_neg_small p small,
              made,
              is_neg_small 0 (omega arith),
            )
            refl,
        room3,
      )
