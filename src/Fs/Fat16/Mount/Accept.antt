-- ===== src/Fs/Fat16/Mount/Accept.antt =====
-- A disk that `fat16_resolve` of kernel/fs/fat/fat16.cpp accepts.
use mathlib.Core.Option
use n00b_os.Prelude.{
  ℕ, suc, ◌+◌, ◌*◌, ◌/◌, ◌≤◌, ◌≡◌, ◌≢◌, some, List, length, get_or, tabulate, add32, mul32, arith,
}
use n00b_os.Disk.{Disk, primary}
use n00b_os.Disk.Streamer.{Allocator, DiskStream}
use n00b_os.Disk.Streamer.Bytes.{byte_at}
use n00b_os.Fs.Fat16.{FatH, FatStreams, FatDirectory, FatDirectoryItem}
use n00b_os.Fs.Fat16.Directory.Count.{Listed, ends, unused, used}
use n00b_os.Fs.Fat16.Mount.{header_at}

-- Every request is served, and every release.
abbrev pub Grants : Allocator → Type 0
Grants alloc =
    (n : ℕ) (s : alloc.State)
    → (a : ℕ) × (s' : alloc.State) × (alloc.kzalloc n s ≡ some (a, s')) × (a ≢ 0)

abbrev pub Releases : Allocator → Type 0
Releases alloc = (a : ℕ) (s : alloc.State) → (s' : alloc.State) × (alloc.kfree a s ≡ some s')

-- The header in the first bytes of a disk, and the sector where its root directory starts.
abbrev pub header_of : (ℕ → ℕ → ℕ) → FatH
header_of sector = header_at (λ i. get_or (tabulate (byte_at sector) 0 62) i 0)

abbrev pub root_sector : FatH → ℕ
root_sector header =
    add32 (mul32 header.primary_header.fat_copies header.primary_header.sectors_per_fat)
      header.primary_header.reserved_sectors

-- The directory of the items.
abbrev pub root_of : Disk → FatH → List FatDirectoryItem → FatDirectory
root_of d header items = record {
  item_address = 0;
  item = items;
  total = length items;
  sector_pos = root_sector header;
  sector_pos_end =
      add32 (root_sector header) (mul32 header.primary_header.root_dir_entries 32 / d.sector_size);
}

pub Listed-length :
    {byte : ℕ → ℕ} {n p : ℕ} {items : List FatDirectoryItem}
    → Listed byte n p items
    → length items ≤ n
Listed-length (ends e) = omega arith
Listed-length (unused e rest) = omega (arith, Listed-length rest)
Listed-length (used h k rest) = omega (arith, Listed-length rest)

-- The stream of the directories behind the read of the root directory, whose end is entry `n`.
abbrev pub directory_end : FatH → ℕ → DiskStream
directory_end header n = record { pos = root_sector header * 512 + suc n * 32; d = primary }

abbrev start_stream : DiskStream
start_stream = record { pos = 0; d = primary }

abbrev new_streams : FatStreams
new_streams = record {
  cluster_read_stream = start_stream;
  fat_read_stream = some start_stream;
  directory_read_stream = start_stream;
}
