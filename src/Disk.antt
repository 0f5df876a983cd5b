-- ===== src/Disk.antt =====
-- kernel/disk/disk.cpp: the disks. A `disk*` is a value that says whether it is the address of
-- `primary_disk`; other pointers carry what they point to.
pub mod Streamer
use mathlib.Core.Option
use n00b_os.Prelude.{ℕ, ◌+◌, Bool, true, false, ◌==◌, if◌then◌else◌, Option, none, some, neg32}
use n00b_os.Config.{disk_block_size, einval}

pub data DiskType : Type 0 where
  real_physical : DiskType

-- `fs` and `fs_private_data` are addresses, 0 for null.
pub record Disk : Type 0 where
  pub type : DiskType
  pub sector_size : ℕ
  pub id : ℕ
  pub fs : ℕ
  pub fs_private_data : ℕ

pub data DiskPtr : Type 0 where
  primary : DiskPtr
  elsewhere : Disk → DiskPtr

-- `*d`, where `primary_disk` holds the first argument.
abbrev pub deref : Disk → DiskPtr → Disk
deref primary_disk primary = primary_disk
deref primary_disk (elsewhere d) = d

-- `get`, the null pointer being `none`.
unfoldable pub get : ℕ → Option DiskPtr
get index = if index == 0 then some primary else none

-- `primary_disk` as `search_and_initialize` gives it to the file systems.
abbrev pub new_disk : Disk
new_disk = record {
  type = real_physical;
  sector_size = disk_block_size;
  id = 0;
  fs = 0;
  fs_private_data = 0;
}

-- The world that holds `primary_disk` behind the call. `resolve` is `fs::resolve`, which returns the
-- file system's address; `disk_of` and `put_disk` are the accesses to `primary_disk`.
unfoldable pub search_and_initialize :
    {World : Type 0}
    → (World → Disk)
    → (Disk → World → World)
    → (DiskPtr → World → Option (ℕ × World))
    → World
    → Option World
search_and_initialize disk_of put_disk resolve w =
    Option.map (λ (fs, w'). put_disk (record (disk_of w') { fs = fs }) w')
      (resolve primary (put_disk new_disk w))

-- What `ata::read_sector` returns for `lba` and `total`, and what it leaves in the buffer.
abbrev pub SectorReader : Type 0
SectorReader = ℕ → ℕ → ℕ × (ℕ → ℕ)

-- The result, and the buffer behind the call.
unfoldable pub read_block : SectorReader → DiskPtr → ℕ → ℕ → (ℕ → ℕ) → ℕ × (ℕ → ℕ)
read_block read_sector primary lba total buf = read_sector lba total
read_block read_sector (elsewhere d) lba total buf = (neg32 einval, buf)
