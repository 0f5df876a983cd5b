-- ===== src/Tests/Missing.antt =====
-- Paths of kernel/fs/fat/fat16.cpp: the root has the directory "SUB", whose only item is "A".
use n00b_os.Prelude.{
  ℕ, ◌+◌, ◌≡◌, refl, ◌==◌, if◌then◌else◌, none, some, List, [], ◌∷◌, slt, sdiv, smod, is_neg,
  rounds, sign_extend, arith,
}
use n00b_os.Disk.{Disk, real_physical, primary, SectorReader}
use n00b_os.Disk.Streamer.{Allocator, read, copy_round}
use n00b_os.Libc.Ctype.{tolower}
use n00b_os.Libc.Strings.{strcasecmp}
use n00b_os.Fs.PathParser.{PathPart}
use n00b_os.Fs.Fat16.{FatDirectoryItem, FatDirectory, FatPrivate, FatStreams}
use n00b_os.Fs.Fat16.Cluster.Chain.{streams_at}
use n00b_os.Fs.Fat16.Item.{directory, get_filename, get_space_terminated_string}
use n00b_os.Fs.Fat16.Mount.{header_at, unread}
use n00b_os.Fs.Fat16.Mount.Accept.{Releases}
use n00b_os.Fs.Fat16.Directory.{
  item_at, items_at, count_loop, get_directory_total_items, load_directory, item_free,
}
use n00b_os.Fs.Fat16.Directory.Lookup.{new_item, find_item_in_directory, get_item}
use n00b_os.Fs.Fat16.Cluster.{
  get_first_cluster, cluster_to_sector, cluster_size_bytes, fill, get_cluster, get_cluster_loop,
  read_internal, read_internal_loop,
}
use n00b_os.Fs.Fat16.Directory.Missing.{get_item_lacking}

abbrev the_disk : Disk
the_disk = record { type = real_physical; sector_size = 512; id = 0; fs = 0; fs_private_data = 0 }

abbrev the_sector : ℕ → ℕ → ℕ
the_sector lba i = if i == 0 then b'A' else if i == 1 then b' ' else if i == 8 then b' ' else 0

abbrev the_reader : SectorReader
the_reader lba total = (0, the_sector lba)

abbrev counting : Allocator
counting = record { State = ℕ; kzalloc = λ n s. some (4096, s + 1); kfree = λ a s. some (s + 1) }

releases : Releases counting
releases a s = (s + 1, refl)

abbrev named : List ℕ → List ℕ → ℕ → FatDirectoryItem
named filename ext attribute = record {
  filename = filename;
  ext = ext;
  attribute = attribute;
  reserved = 0;
  creation_time_tenths_of_a_second = 0;
  creation_time = 0;
  creation_date = 0;
  last_access = 0;
  hi_16bits_first_cluster = 0;
  last_modification_time = 0;
  last_modification_date = 0;
  lo_16bits_first_cluster = if attribute == 0x10 then 2 else 0;
  filesize = 0;
}

abbrev sub : FatDirectoryItem
sub = named (b'S' ∷ b'U' ∷ b'B' ∷ b' ' ∷ []) (b' ' ∷ []) 0x10

abbrev private_data : FatPrivate
private_data = record {
  header = header_at (λ i. if i == 13 then 1 else 0);
  root_directory = record unread { item = sub ∷ []; total = 1 };
}

abbrev the_directory : FatDirectory
the_directory = record {
  item_address = 4096;
  item = named (b'A' ∷ b' ' ∷ 0 ∷ 0 ∷ 0 ∷ 0 ∷ 0 ∷ 0 ∷ []) (b' ' ∷ 0 ∷ 0 ∷ []) 0 ∷ [];
  total = 1;
  sector_pos = 0;
  sector_pos_end = 0;
}

abbrev the_streams : ℕ → ℕ → FatStreams
the_streams p q = streams_at p 0 (record { pos = q; d = primary })

abbrev part : List ℕ → PathPart
part name = record { part_name = some name }

enters :
    find_item_in_directory the_disk the_reader counting 9 private_data private_data.root_directory
      (some (b's' ∷ b'u' ∷ b'b' ∷ []))
      (the_streams 0 0)
      0
    ≡ some (some (4096, directory (some (4096, the_directory))), the_streams 32 64, 9)
unfolding find_item_in_directory new_item load_directory get_directory_total_items count_loop
    item_at items_at read_internal fill cluster_to_sector cluster_size_bytes get_cluster
    get_first_cluster header_at read copy_round get_filename strcasecmp tolower slt sdiv smod is_neg
    rounds sign_extend get_space_terminated_string read_internal_loop get_cluster_loop
enters = refl

get_item_lacking_example :
    (s' : ℕ) × (item_free the_disk the_reader counting
        (4096, directory (some (4096, the_directory)))
        9
      ≡ some s')
    × (get_item the_disk the_reader counting 9 private_data
          (part (b's' ∷ b'u' ∷ b'b' ∷ []))
          (part (b'a' ∷ b'b' ∷ []) ∷ [])
          (the_streams 0 0)
          0
        ≡ some (none, the_streams 32 64, s'))
    × (get_item the_disk the_reader counting 9 private_data
          (part (b's' ∷ b'u' ∷ b'b' ∷ []))
          (part (b'a' ∷ b'b' ∷ []) ∷ part (b'c' ∷ []) ∷ [])
          (the_streams 0 0)
          0
        ≡ none)
get_item_lacking_example =
    get_item_lacking the_disk the_reader counting releases 9 private_data
      (part (b's' ∷ b'u' ∷ b'b' ∷ [])) (part (b'a' ∷ b'b' ∷ [])) (part (b'c' ∷ [])) [] 4096 4096
      the_directory (the_streams 0 0) (the_streams 32 64) 0 9 enters (b'a' ∷ b'b' ∷ []) refl
      ((omega arith, omega arith), ((omega arith, omega arith), tt))
      (
        record {
          filename_size = omega arith;
          ext_size = omega arith;
          filename_bytes = (
            omega arith,
            (
              omega arith,
              (
                omega arith,
                (omega arith, (omega arith, (omega arith, (omega arith, (omega arith, tt))))),
              ),
            ),
          );
          ext_bytes = (omega arith, (omega arith, (omega arith, tt)));
        },
        tt,
      )
      (λ h. h.1, tt)
