-- ===== src/Tests/Fat16.antt =====
-- kernel/fs/fat/fat16.cpp on a small file system: its table starts at sector 1 and leads from
-- cluster 2 to cluster 3, and each cluster is one sector, the first of them sector 300.
use n00b_os.Prelude.{
  ℕ, ◌+◌, ◌*◌, ◌%◌, ◌<◌, ◌≡◌, refl, ◌==◌, ◌&&◌, if◌then◌else◌, some, [], ◌∷◌, arith, ap,
}
use n00b_os.Disk.{Disk, real_physical, primary, SectorReader}
use n00b_os.Disk.Streamer.{Allocator, DiskStream}
use n00b_os.Disk.Streamer.Bytes.{byte_at}
use n00b_os.Fs.Fat16.Item.{get_filename}
use n00b_os.Fs.Fat16.Item.Name.{get_filename_lem}
use n00b_os.Fs.Fat16.{FatDirectoryItem, FatPrivate, FatHeader}
use n00b_os.Fs.Fat16.Cluster.{get_cluster, read_internal}
use n00b_os.Fs.Fat16.Cluster.Chain.{
  next, here, streams_at, fat_of, Walked, Serves, Anywhere, Serves-Anywhere, get_cluster-Walked,
}
use n00b_os.Fs.Fat16.Cluster.ReadInternal.{Filled, data_start, read_internal-Filled}

abbrev the_disk : Disk
the_disk = record { type = real_physical; sector_size = 512; id = 0; fs = 0; fs_private_data = 0 }

abbrev pub the_sector : ℕ → ℕ → ℕ
the_sector lba i =
    if lba == 1 && i == 4 then 3 else if lba == 1 && i == 5 then 0 else (lba * 512 + i) % 251

abbrev pub the_reader : SectorReader
the_reader lba total = (0, the_sector lba)

abbrev counting : Allocator
counting = record { State = ℕ; kzalloc = λ n s. some (4096, s + 1); kfree = λ a s. some (s + 1) }

abbrev pub the_header : FatHeader
the_header = record {
  short_jmp_instruction = [];
  oem_identifier = [];
  bytes_per_sector = 512;
  sectors_per_cluster = 1;
  reserved_sectors = 1;
  fat_copies = 2;
  root_dir_entries = 64;
  number_of_sectors = 400;
  media_type = 0xF8;
  sectors_per_fat = 148;
  sectors_per_track = 32;
  number_of_heads = 64;
  hidden_sectors = 0;
  sectors_big = 0;
}

abbrev pub the_file_system : FatPrivate
the_file_system = record {
  header = record {
    primary_header = the_header;
    extender_header = record {
      drive_number = 0x80;
      win_nt_bit = 0;
      signature = 0x29;
      volume_id = 0;
      volume_id_string = [];
      system_id_string = [];
    };
  };
  root_directory = record {
    item_address = 0;
    item = [];
    total = 0;
    sector_pos = 297;
    sector_pos_end = 300;
  };
}

abbrev pub the_stream : DiskStream
the_stream = record { pos = 0; d = primary }

pub the_bytes : (p : ℕ) → byte_at the_sector p < 256
the_bytes p = ground arith

serves : Serves counting (λ s. s + 2)
serves s = (4096, s + 1, refl, ap some (omega arith))

get_cluster-Walked_example :
    Walked
      (fat_of the_sector the_file_system)
      0
      the_stream
      1
      2
      (get_cluster the_disk the_reader counting the_file_system 2 600 (streams_at 0 0 the_stream) 0)
get_cluster-Walked_example =
    get_cluster-Walked the_disk refl the_reader the_sector 400 (λ lba lt. refl) the_bytes counting
      Anywhere (Serves-Anywhere counting (λ s. s + 2) serves) the_file_system (omega arith)
      (omega arith) 2 600 0 0 the_stream 0 (omega arith) (omega arith) tt (omega arith)
      (omega arith)

-- 1000 bytes wanted from byte 600 of the file on: 512 are delivered.
read_internal-Filled_example :
    Filled
      (byte_at the_sector)
      (data_start the_file_system 3 600)
      512
      (λ i. 0)
      the_stream
      (read_internal the_disk the_reader counting the_file_system 2 600 1000
        (λ i. 0)
        (streams_at 0 0 the_stream)
        0)
read_internal-Filled_example =
    read_internal-Filled the_disk refl the_reader the_sector 400 (λ lba lt. refl) the_bytes counting
      Anywhere (Serves-Anywhere counting (λ s. s + 2) serves) the_file_system (omega arith)
      (omega arith) (omega arith) (omega arith) 2 3 600 (omega arith) (omega arith)
      (next (omega arith) (omega arith) here) (omega arith) (omega arith) (omega arith) 1000 0 0
      the_stream (λ i. 0) 0 tt (omega arith)

-- The file "KERNEL.BIN", and its name in a buffer of 255 bytes.
abbrev pub kernel_bin : FatDirectoryItem
kernel_bin = record {
  filename = b'K' ∷ (b'E' ∷ (b'R' ∷ (b'N' ∷ (b'E' ∷ (b'L' ∷ (b' ' ∷ (b' ' ∷ [])))))));
  ext = b'B' ∷ (b'I' ∷ (b'N' ∷ []));
  attribute = 0x20;
  reserved = 0;
  creation_time_tenths_of_a_second = 0;
  creation_time = 0;
  creation_date = 0;
  last_access = 0;
  hi_16bits_first_cluster = 0;
  last_modification_time = 0;
  last_modification_date = 0;
  lo_16bits_first_cluster = 2;
  filesize = 600;
}

get_filename_lem_example : get_filename kernel_bin (λ i. 77) 255 6 ≡ b'.'
get_filename_lem_example =
    get_filename_lem kernel_bin (λ i. 77) 255 6 (omega arith) (omega arith) (omega arith)
      (omega arith)
