-- ===== src/Fs/Fat16/Mount.antt =====
-- kernel/fs/fat/fat16.cpp: finding the file system of a disk. The outer `none` is a call that does
-- not return, or one whose further course the definitions do not follow, as they say.
pub mod Accept
pub mod Resolve
use mathlib.Core.Option
use n00b_os.Prelude.{
  ℕ, zero, suc, ◌+◌, ◌*◌, ◌/◌, ◌%◌, ◌^◌, Bool, true, false, not, ◌&&◌, ◌==◌, if◌then◌else◌, Option,
  none, some, length, ltb, List, [], ◌∷◌, get_or, tabulate, add32, mul32, neg32, is_neg,
}
use n00b_os.Config.{heap_table_address, eio, enomem, einval, erofs, efsnotpresent}
use n00b_os.Disk.{Disk, SectorReader}
use n00b_os.Disk.Streamer.{Allocator, DiskStream, new_stream, read, close}
use n00b_os.Fs.PathParser.{PathPart}
use n00b_os.Fs.File.{FileMode, file_mode_read, file_mode_write, file_mode_append, file_mode_invalid}
use n00b_os.Fs.Fat16.{FatHeader, FatHeaderExtended, FatH, FatPrivate, FatStreams, FatDirectory}
use n00b_os.Fs.Fat16.Item.{FatItem, FatItemDescriptor, directory, file}
use n00b_os.Fs.Fat16.Directory.{
  le16, le32, sizeof_fat_directory_item, get_directory_total_items, item_free,
}
use n00b_os.Fs.Fat16.Directory.Lookup.{get_item}

abbrev pub fat16_signature : ℕ
fat16_signature = 0x29

abbrev pub sizeof_fat_h : ℕ
sizeof_fat_h = 62

abbrev pub sizeof_fat_private : ℕ
sizeof_fat_private = 92

-- The packed headers, from their bytes.
unfoldable pub header_at : (ℕ → ℕ) → FatH
header_at f = record {
  primary_header = record {
    short_jmp_instruction = tabulate f 0 3;
    oem_identifier = tabulate f 3 8;
    bytes_per_sector = le16 f 11;
    sectors_per_cluster = f 13;
    reserved_sectors = le16 f 14;
    fat_copies = f 16;
    root_dir_entries = le16 f 17;
    number_of_sectors = le16 f 19;
    media_type = f 21;
    sectors_per_fat = le16 f 22;
    sectors_per_track = le16 f 24;
    number_of_heads = le16 f 26;
    hidden_sectors = le32 f 28;
    sectors_big = le32 f 32;
  };
  extender_header = record {
    drive_number = f 36;
    win_nt_bit = f 37;
    signature = f 38;
    volume_id = le32 f 39;
    volume_id_string = tabulate f 43 11;
    system_id_string = tabulate f 54 8;
  };
}

-- A directory as `kzalloc` leaves it.
abbrev pub unread : FatDirectory
unread = record { item_address = 0; item = []; total = 0; sector_pos = 0; sector_pos_end = 0 }

-- The addresses of the three streams of `fat_private`.
pub record StreamAddresses : Type 0 where
  pub cluster_read_stream_address : ℕ
  pub fat_read_stream_address : ℕ
  pub directory_read_stream_address : ℕ

-- What `new_stream` returned, as an address.
abbrev pub stream_address : Option (ℕ × DiskStream) → ℕ
stream_address none = 0
stream_address (some (address, stream)) = address

abbrev pub three_streams :
    Option (ℕ × DiskStream) → Option (ℕ × DiskStream) → Option (ℕ × DiskStream) → Option FatStreams
three_streams (some c) (some f) (some r) =
    some (record {
      cluster_read_stream = c.1;
      fat_read_stream = some f.1;
      directory_read_stream = r.1;
    })
three_streams none f r = none
three_streams (some c) none r = none
three_streams (some c) (some f) none = none

module _ (d : Disk) (read_sector : SectorReader) (alloc : Allocator) where
  open alloc use {State, kzalloc, kfree}

  -- The addresses of the three streams, null ones among them, and the streams, `none` where one of
  -- them is null.
  unfoldable pub init_fat_private :
      ℕ → State → Option ((StreamAddresses × Option FatStreams) × State)
  unfolding Option.bind
  init_fat_private disk_id s =
      Option.bind (new_stream d read_sector alloc disk_id s) (λ (cluster_stream, s1).
        Option.bind (new_stream d read_sector alloc disk_id s1) (λ (fat_stream, s2).
          Option.map
            (λ (directory_stream, s3). (
              (
                record {
                  cluster_read_stream_address = stream_address cluster_stream;
                  fat_read_stream_address = stream_address fat_stream;
                  directory_read_stream_address = stream_address directory_stream;
                },
                three_streams cluster_stream fat_stream directory_stream,
              ),
              s3,
            ))
            (new_stream d read_sector alloc disk_id s2)))

  unfoldable pub close_fat_private : StreamAddresses → State → Option State
  unfolding close Option.bind
  close_fat_private addresses s =
      Option.bind (close d read_sector alloc addresses.cluster_read_stream_address s) (λ s1.
        Option.bind (close d read_sector alloc addresses.fat_read_stream_address s1)
          (λ s2. close d read_sector alloc addresses.directory_read_stream_address s2))

  -- The result, and the directory behind the call; its array lies where `item` points, at address 0
  -- for the directory of a new `fat_private`. Items that reach from there into the table of the
  -- kernel's heap, whose entries they overwrite, are not followed further: the outer `none`.
  unfoldable pub get_root_directory :
      ℕ → FatH → FatDirectory → FatStreams → State → Option (ℕ × FatDirectory × FatStreams × State)
  unfolding Option.bind
  get_root_directory fuel header root_directory streams s =
      let primary_header = header.primary_header in
      let root_dir_sector_pos =
        add32 (mul32 primary_header.fat_copies primary_header.sectors_per_fat)
          primary_header.reserved_sectors in
      let root_dir_size = mul32 primary_header.root_dir_entries sizeof_fat_directory_item in
      Option.bind
        (get_directory_total_items d read_sector alloc fuel root_dir_sector_pos true streams s)
        (λ (directory_total_items, items, streams', s').
          let filled = record root_directory { item = items } in
          let array_end = root_directory.item_address + length items * sizeof_fat_directory_item in
          if ltb heap_table_address array_end
          then none
          else if is_neg directory_total_items
          then some (directory_total_items, filled, streams', s')
          else some (
            0,
            record filled {
              total = directory_total_items;
              sector_pos = root_dir_sector_pos;
              sector_pos_end = add32 root_dir_sector_pos (root_dir_size / d.sector_size);
            },
            streams',
            s',
          ))

  -- From the header on: the result, the private data and the streams, with `stream` for the header.
  unfoldable pub read_metadata :
      ℕ → DiskStream → FatStreams → State → Option (ℕ × FatPrivate × FatStreams × State)
  unfolding get_root_directory Option.bind
  read_metadata fuel stream streams s =
      Option.bind (read d read_sector alloc stream sizeof_fat_h s) (λ (result, bytes, _, s').
        let header = header_at (λ i. get_or bytes i 0) in
        let private_data : FatPrivate = record { header = header; root_directory = unread } in
        if not (result == 0)
        then some (result, private_data, streams, s')
        else if not (header.extender_header.signature == fat16_signature)
        then some (neg32 efsnotpresent, private_data, streams, s')
        else Option.map
            (λ (result', root, streams', s'').
              (result', record { header = header; root_directory = root }, streams', s''))
            (get_root_directory fuel header unread streams s'))

  -- `if (result < 0 && private_data != nullptr)`, at the label `out`: the disk and the state.
  unfoldable pub undo_mount : ℕ → ℕ → StreamAddresses → ℕ → Disk → State → Option (Disk × State)
  unfolding close_fat_private Option.bind
  undo_mount result private_address addresses fs disk s =
      let undone = Option.bind (close_fat_private addresses s) (λ s1.
        Option.map (λ s2. (record disk { fs = 0; fs_private_data = 0 }, s2))
          (kfree private_address s1)) in
      if is_neg result && not (private_address == 0)
      then undone
      else some (record disk { fs = fs; fs_private_data = private_address }, s)

  -- From the header on, with its stream.
  unfoldable pub read_and_close :
      ℕ
      → ℕ
      → ℕ
      → StreamAddresses
      → FatStreams
      → ℕ × DiskStream
      → Disk
      → State
      → Option (ℕ × Disk × Option (FatPrivate × FatStreams) × State)
  unfolding read_metadata undo_mount Option.bind
  read_and_close fuel private_address fs addresses streams stream disk s =
      Option.bind (read_metadata fuel stream.1 streams s) (λ (result, private_data, streams', s4).
        Option.bind (close d read_sector alloc stream.0 s4) (λ s5.
          Option.map (λ (disk', s6). (result, disk', some (private_data, streams'), s6))
            (undo_mount result private_address addresses fs disk s5)))

  -- The result, the disk, the private data and the streams, `none` where there is no stream for the
  -- header. A null stream in the private data with one for the header is not followed further: the
  -- outer `none`. `fs` is the address of `fat16_fs`.
  unfoldable pub fat16_resolve :
      ℕ → ℕ → Disk → State → Option (ℕ × Disk × Option (FatPrivate × FatStreams) × State)
  unfolding read_and_close undo_mount init_fat_private Option.bind
  fat16_resolve fuel fs disk s =
      Option.bind (kzalloc sizeof_fat_private s) (λ (private_address, s1).
        Option.bind (init_fat_private disk.id s1) (λ (made, s2).
          Option.bind (new_stream d read_sector alloc disk.id s2) (λ (opened, s3). elim opened [
            | none ↦
                Option.map (λ (disk', s4). (neg32 enomem, disk', none, s4))
                  (undo_mount (neg32 enomem) private_address made.0 fs disk s3)
            | some stream ↦ elim made.1 [
              | none ↦ none
              | some streams ↦ read_and_close fuel private_address fs made.0 streams stream disk s3
            ]
          ])))
