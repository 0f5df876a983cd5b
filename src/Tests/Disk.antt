-- ===== src/Tests/Disk.antt =====
-- kernel/disk on a disk whose byte at position p is p modulo 251.
use n00b_os.Prelude.{
  ℕ, ◌+◌, ◌*◌, ◌%◌, ◌≡◌, refl, arith, some, [], ◌∷◌, tabulate, slt, is_neg, sdiv, smod, rounds,
}
use n00b_os.Disk.{Disk, real_physical, primary, SectorReader}
use n00b_os.Disk.Streamer.{Allocator, read, copy_round}
use n00b_os.Disk.Streamer.Bytes.{byte_at, read_lem}

abbrev the_disk : Disk
the_disk = record { type = real_physical; sector_size = 512; id = 0; fs = 0; fs_private_data = 0 }

abbrev the_sector : ℕ → ℕ → ℕ
the_sector lba i = (lba * 512 + i) % 251

abbrev the_reader : SectorReader
the_reader lba total = (0, the_sector lba)

-- Counts what is allocated.
abbrev counting : Allocator
counting = record { State = ℕ; kzalloc = λ n s. some (4096, s + 1); kfree = λ a s. some (s + 1) }

across_a_boundary :
    read the_disk the_reader counting (record { pos = 510; d = primary }) 4 0
    ≡ some (0, 8 ∷ 9 ∷ 10 ∷ 11 ∷ [], record { pos = 514; d = primary }, 2)
unfolding read copy_round slt is_neg sdiv smod rounds
across_a_boundary = refl

read_lem_example :
    read the_disk the_reader counting (record { pos = 510; d = primary }) 4 0
    ≡ some (0, tabulate (byte_at the_sector) 510 4, record { pos = 514; d = primary }, 2)
read_lem_example =
    read_lem the_disk refl the_reader the_sector 10 (λ lba lt. refl) counting 510 4 0 1 2 4096
      (omega arith) (omega arith) refl refl
