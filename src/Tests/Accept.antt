-- ===== src/Tests/Accept.antt =====
-- Mounting of kernel/fs/fat/fat16.cpp: a disk whose first sector is a signed header with 5 reserved
-- sectors, and whose sector 5 holds an unused entry, the entry of a file, and the end.
use n00b_os.Prelude.{ℕ, ◌+◌, ◌*◌, ◌%◌, ◌==◌, if◌then◌else◌, some}
use n00b_os.Disk.{Disk, real_physical, SectorReader}
use n00b_os.Disk.Streamer.{Allocator}
use n00b_os.Disk.Streamer.Bytes.{byte_at}
use n00b_os.Fs.Fat16.{FatH, FatDirectoryItem}
use n00b_os.Fs.Fat16.Mount.Accept.{header_of}
use n00b_os.Fs.Fat16.Directory.{item_at}

abbrev the_disk : Disk
the_disk = record { type = real_physical; sector_size = 512; id = 0; fs = 0; fs_private_data = 0 }

abbrev the_sector : ℕ → ℕ → ℕ
the_sector lba i =
    if lba == 0
    then (if i == 14 then 5 else if i == 38 then 0x29 else 0)
    else if i == 0
    then 0xE5
    else if i == 32
    then b'A'
    else if i == 64
    then 0
    else (lba * 512 + i) % 251

abbrev the_reader : SectorReader
the_reader lba total = (0, the_sector lba)

abbrev counting : Allocator
counting = record { State = ℕ; kzalloc = λ n s. some (4096, s + 1); kfree = λ a s. some (s + 1) }

abbrev the_header : FatH
the_header = header_of the_sector

abbrev the_item : FatDirectoryItem
the_item = item_at (byte_at the_sector) (5 * 512 + 32)
