-- ===== src/Tests/Mount.antt =====
-- `fat16_resolve` of kernel/fs/fat/fat16.cpp on the small disk of Tests/Fat16, whose first sector
-- carries no signature.
use n00b_os.Prelude.{ℕ, ◌+◌, ◌*◌, ◌%◌, some}
use n00b_os.Disk.{Disk, real_physical, SectorReader}
use n00b_os.Disk.Streamer.{Allocator}

abbrev a_disk : Disk
a_disk = record { type = real_physical; sector_size = 512; id = 0; fs = 0; fs_private_data = 0 }

abbrev a_reader : SectorReader
a_reader lba total = (0, λ i. (lba * 512 + i) % 251)

-- Gives out one address after the other.
abbrev rising : Allocator
rising = record { State = ℕ; kzalloc = λ n s. some (s, s + 4096); kfree = λ a s. some s }
