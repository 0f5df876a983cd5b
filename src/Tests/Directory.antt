-- ===== src/Tests/Directory.antt =====
-- Directories of kernel/fs/fat/fat16.cpp: sector 5 of a disk holds an unused entry, the entry of a
-- file, and the end.
use n00b_os.Prelude.{
  ℕ, ◌+◌, ◌*◌, ◌%◌, ◌≡◌, refl, true, ◌==◌, if◌then◌else◌, some, [], ◌∷◌, arith, ap,
}
use n00b_os.Disk.{Disk, real_physical, primary, SectorReader}
use n00b_os.Disk.Streamer.{Allocator}
use n00b_os.Disk.Streamer.Bytes.{byte_at}
use n00b_os.Fs.Fat16.{FatDirectoryItem, FatStreams}
use n00b_os.Fs.Fat16.Cluster.Chain.{Serves, streams_at}
use n00b_os.Fs.Fat16.Directory.{item_at, get_directory_total_items}
use n00b_os.Fs.Fat16.Directory.Count.{
  Listed, ends, unused, used, Copies, get_directory_total_items-Listed,
}

abbrev the_disk : Disk
the_disk = record { type = real_physical; sector_size = 512; id = 0; fs = 0; fs_private_data = 0 }

abbrev the_sector : ℕ → ℕ → ℕ
the_sector lba i =
    if i == 0 then 0xE5 else if i == 32 then b'A' else if i == 64 then 0 else (lba * 512 + i) % 251

abbrev the_reader : SectorReader
the_reader lba total = (0, the_sector lba)

abbrev counting : Allocator
counting = record { State = ℕ; kzalloc = λ n s. some (4096, s + 1); kfree = λ a s. some (s + 1) }

serves : Serves counting (λ s. s + 2)
serves s = (4096, s + 1, refl, ap some (omega arith))

copies : Copies counting
copies s = (4096, s + 1, refl, omega arith)

abbrev the_streams : FatStreams
the_streams = streams_at 0 0 (record { pos = 7; d = primary })

abbrev the_item : FatDirectoryItem
the_item = item_at (byte_at the_sector) (5 * 512 + 32)

listed : Listed (byte_at the_sector) 2 (5 * 512) (the_item ∷ [])
unfolding item_at
listed = unused refl (used (omega arith) (omega arith) (ends refl))

get_directory_total_items-Listed_example :
    (s' : ℕ) × (get_directory_total_items the_disk the_reader counting 3 5 true the_streams 0
      ≡ some (
        1,
        the_item ∷ [],
        record the_streams {
          directory_read_stream = record { pos = 5 * 512 + 3 * 32; d = primary };
        },
        s',
      ))
get_directory_total_items-Listed_example =
    get_directory_total_items-Listed the_disk refl the_reader the_sector 100 (λ lba lt. refl)
      counting (λ s. s + 2) serves copies 3 2 5 7 true (the_item ∷ []) the_streams 0 refl listed
      (omega arith) (omega arith) (omega arith)
