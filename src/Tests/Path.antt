-- ===== src/Tests/Path.antt =====
-- The path "sub/a.txt" of kernel/fs/fat/fat16.cpp: the root has the directory "SUB" at cluster 2, sector
-- 300, whose only entry is the file "A.TXT".
use n00b_os.Prelude.{ℕ, ◌+◌, ◌*◌, ◌%◌, ◌==◌, ◌&&◌, leb, if◌then◌else◌, some, [], ◌∷◌}
use n00b_os.Disk.{Disk, real_physical, SectorReader}
use n00b_os.Disk.Streamer.{Allocator}
use n00b_os.Disk.Streamer.Bytes.{byte_at}
use n00b_os.Fs.Fat16.{FatPrivate, FatDirectoryItem}
use n00b_os.Fs.Fat16.Directory.{item_at}
use n00b_os.Tests.Fat16.{the_file_system}

abbrev the_disk : Disk
the_disk = record { type = real_physical; sector_size = 512; id = 0; fs = 0; fs_private_data = 0 }

abbrev the_directory_byte : ℕ → ℕ
the_directory_byte i =
    if i == 0
    then b'A'
    else if leb 1 i && leb i 7
    then b' '
    else if i == 8
    then b'T'
    else if i == 9
    then b'X'
    else if i == 10
    then b'T'
    else if i == 26
    then 3
    else 0

abbrev the_sector : ℕ → ℕ → ℕ
the_sector lba i = if lba == 300 then the_directory_byte i else (lba * 512 + i) % 251

abbrev the_reader : SectorReader
the_reader lba total = (0, the_sector lba)

abbrev counting : Allocator
counting = record { State = ℕ; kzalloc = λ n s. some (4096, s + 1); kfree = λ a s. some (s + 1) }

abbrev the_item : FatDirectoryItem
the_item = item_at (byte_at the_sector) (300 * 512)

abbrev the_entry : FatDirectoryItem
the_entry = record {
  filename = b'S' ∷ b'U' ∷ b'B' ∷ b' ' ∷ [];
  ext = b' ' ∷ [];
  attribute = 0x10;
  reserved = 0;
  creation_time_tenths_of_a_second = 0;
  creation_time = 0;
  creation_date = 0;
  last_access = 0;
  hi_16bits_first_cluster = 0;
  last_modification_time = 0;
  last_modification_date = 0;
  lo_16bits_first_cluster = 2;
  filesize = 0;
}

abbrev the_private : FatPrivate
the_private = record the_file_system {
  root_directory = record the_file_system.root_directory { item = the_entry ∷ []; total = 1 };
}
