-- ===== src/Tests/Load.antt =====
-- A subdirectory of kernel/fs/fat/fat16.cpp at cluster 2, sector 300: an unused entry, the entry of a
-- file, and the end. One entry is in use, and what is loaded is the unused one.
use n00b_os.Prelude.{ℕ, ◌+◌, ◌*◌, ◌%◌, ◌==◌, if◌then◌else◌, some, [], ◌∷◌}
use n00b_os.Disk.{Disk, real_physical, SectorReader}
use n00b_os.Disk.Streamer.{Allocator}
use n00b_os.Disk.Streamer.Bytes.{byte_at}
use n00b_os.Fs.Fat16.{FatDirectoryItem}
use n00b_os.Fs.Fat16.Directory.{item_at}

abbrev the_disk : Disk
the_disk = record { type = real_physical; sector_size = 512; id = 0; fs = 0; fs_private_data = 0 }

abbrev the_sector : ℕ → ℕ → ℕ
the_sector lba i =
    if i == 0 then 0xE5 else if i == 32 then b'A' else if i == 64 then 0 else (lba * 512 + i) % 251

abbrev the_reader : SectorReader
the_reader lba total = (0, the_sector lba)

abbrev counting : Allocator
counting = record { State = ℕ; kzalloc = λ n s. some (4096, s + 1); kfree = λ a s. some (s + 1) }

abbrev the_item : FatDirectoryItem
the_item = item_at (byte_at the_sector) (300 * 512 + 32)

abbrev the_entry : FatDirectoryItem
the_entry = record {
  filename = b'S' ∷ b'U' ∷ b'B' ∷ b' ' ∷ [];
  ext = b' ' ∷ [];
  attribute = 0x10;
  reserved = 0;
  creation_time_tenths_of_a_second = 0;
  creation_time = 0;
  creation_date = 0;
  last_access = 0;
  hi_16bits_first_cluster = 0;
  last_modification_time = 0;
  last_modification_date = 0;
  lo_16bits_first_cluster = 2;
  filesize = 0;
}
