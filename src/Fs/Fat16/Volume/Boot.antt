-- ===== src/Fs/Fat16/Volume/Boot.antt =====
-- From the start of the file systems to the bytes of a file: kernel/fs/file.cpp, kernel/disk/disk.cpp,
-- kernel/fs/fat/fat16.cpp and the disk streamer together.
use mathlib.Core.Option
use n00b_os.Prelude.{
  ℕ, zero, suc, ◌+◌, ◌*◌, ◌^◌, ◌<◌, ◌≤◌, ◌≡◌, ◌≢◌, List, All, length, tabulate, length-tabulate,
  arith,
}
use n00b_os.Disk.{SectorReader, new_disk}
use n00b_os.Disk.Streamer.{Allocator}
use n00b_os.Disk.Streamer.Bytes.{byte_at, Delivers}
use n00b_os.Fs.Fat16.{FatH, FatPrivate, FatDirectoryItem}
use n00b_os.Fs.Fat16.Cluster.Chain.{Serves}
use n00b_os.Fs.Fat16.Mount.{fat16_signature}
use n00b_os.Fs.Fat16.Mount.Accept.{Releases, header_of, root_sector, root_of}
use n00b_os.Fs.Fat16.Directory.{item_at}
use n00b_os.Fs.Fat16.Directory.Count.{Listed, ends, unused, used}
use n00b_os.Fs.Fat16.Directory.Find.{IsItem}
use n00b_os.Config.{heap_table_address}
use n00b_os.Fs.Fat16.Volume.{Volume}
use n00b_os.Fs.Fat16.Volume.Requests.{Serving}

tabulate-bytes :
    (byte : ℕ → ℕ) (p n : ℕ) → ((i : ℕ) → byte i < 256) → All (λ c. c < 256) (tabulate byte p n)
tabulate-bytes byte p zero small = tt
tabulate-bytes byte p (suc n) small = (small p, tabulate-bytes byte (p + 1) n small)

-- The items of a directory on disk have the fields' sizes.
pub Listed-IsItem :
    {byte : ℕ → ℕ} {n p : ℕ} {items : List FatDirectoryItem}
    → ((i : ℕ) → byte i < 256)
    → Listed byte n p items
    → All IsItem items
unfolding item_at
Listed-IsItem small (ends e) = tt
Listed-IsItem small (unused e rest) = Listed-IsItem small rest
Listed-IsItem {byte = byte} small (used {p = p} h k rest) = (
  record {
    filename_size = omega (arith, length-tabulate byte p 8);
    ext_size = omega (arith, length-tabulate byte (p + 8) 3);
    filename_bytes = tabulate-bytes byte p 8 small;
    ext_bytes = tabulate-bytes byte (p + 8) 3 small;
  },
  Listed-IsItem small rest,
)

module _ (read_sector : SectorReader) (sector : ℕ → ℕ → ℕ) (limit : ℕ)
    (delivers : Delivers read_sector sector limit) (bytes : (p : ℕ) → byte_at sector p < 256)
    (alloc : Allocator) (after : alloc.State → alloc.State) (serves : Serves alloc after)
    (serving : Serving alloc) (releases : Releases alloc) (fuel fs n : ℕ) (fs_nonzero : fs ≢ 0)
    (items : List FatDirectoryItem) (header : FatH) (is_header : header_of sector ≡ header)
    (signed : header.extender_header.signature ≡ fat16_signature)
    (listed : Listed (byte_at sector) n (root_sector header * 512) items) (enough : n < fuel)
    (directory_inside : root_sector header * 512 + suc n * 32 ≤ limit * 512)
    (limit_small : limit * 512 < 2 ^ 31)
    (below_table : length items * 32 ≤ heap_table_address) where
  -- What the disk's private data are.
  abbrev pub on_disk : FatPrivate
  on_disk = record { header = header; root_directory = root_of new_disk header items }
