-- ===== src/Fs/Fat16/Volume/Seek.antt =====
-- What a read behind a seek delivers, through kernel/fs/file.cpp, kernel/fs/fat/fat16.cpp and the disk
-- streamer.
use n00b_os.Prelude.{
  ℕ, ◌+◌, ◌*◌, ◌/◌, ◌^◌, ◌<◌, ◌≤◌, ◌≡◌, ◌≢◌, refl, ◌==◌, ==_of_ne, ==_refl, if◌then◌else◌, some,
  is_neg_small, add32, arith,
}
use n00b_os.Disk.{SectorReader}
use n00b_os.Disk.Streamer.{Allocator, DiskStream}
use n00b_os.Disk.Streamer.Bytes.{byte_at, Delivers}
use n00b_os.Fs.File.{FileTable, get_file_descriptor, fread, fseek}
use n00b_os.Fs.Fat16.{FatPrivate, FatDirectoryItem}
use n00b_os.Fs.Fat16.Cluster.{get_first_cluster}
use n00b_os.Fs.Fat16.Cluster.Chain.{Chain, ServesIn, streams_at, fat_of, cluster_bytes}
use n00b_os.Fs.Fat16.Cluster.ReadInternal.{data_start}
use n00b_os.Fs.Fat16.Item.{FatItemDescriptor, file, fat16_seek, seek_set}
use n00b_os.Fs.Fat16.Volume.{Volume, set_descriptor, seek_volume, fat16_fs}
use n00b_os.Fs.Fat16.Volume.Open.{mount, descriptor_of}
use n00b_os.Fs.Fat16.Volume.Read.{Delivered, read_at}

-- Where a seek by `offset` leads from position `pos`.
abbrev pub sought : ℕ → ℕ → ℕ → ℕ
sought pos offset whence = if whence == seek_set then offset else add32 pos offset

-- The open file at position `pos`.
abbrev pub file_at : ℕ → ℕ → FatDirectoryItem → ℕ → FatItemDescriptor
file_at address a item pos = record { item_address = address; item = file a item; pos = pos }

seek_set_or_current :
    (address a pos offset whence : ℕ) (item : FatDirectoryItem)
    → whence < 2
    → fat16_seek (file_at address a item pos) offset whence
      ≡ (0, file_at address a item (sought pos offset whence))
unfolding fat16_seek
seek_set_or_current address a pos offset whence item small = ground arith

module _ (read_sector : SectorReader) (sector : ℕ → ℕ → ℕ) (limit : ℕ)
    (delivers : Delivers read_sector sector limit) (bytes : (p : ℕ) → byte_at sector p < 256)
    (alloc : Allocator) (Room : alloc.State → Type 0) (serves : ServesIn alloc Room) (fuel fs : ℕ)
    (private_data : FatPrivate)
    (reserved_small : private_data.header.primary_header.reserved_sectors < 0x10000)
    (table_inside : private_data.header.primary_header.reserved_sectors + 256 ≤ limit)
    (some_sectors : 0 < private_data.header.primary_header.sectors_per_cluster)
    (few : private_data.header.primary_header.sectors_per_cluster < 256)
    (limit_small : limit * 512 < 2 ^ 31) where
  -- `fseek` of an open file to an offset, or by one from its position, and `fread`: the first returns
  -- 0, the second returns 0 and delivers the bytes that stand on the disk from the new position's
  -- place in the file's chain of clusters on, and no others. For a position below 2 ^ 31 that the
  -- chain reaches, blocks of no more than one cluster in all, a mounted file system with 1 to 255
  -- sectors per cluster whose table and this cluster, with one more behind the position, lie on the
  -- disk, a device that delivers the disk's 512-byte sectors, and a heap with room for a sector, such
  -- as the kernel's with a free block.
  pub fread-fseek :
      (v : Volume alloc.State) (table : FileTable)
      (fd idx p address a pos offset whence c q q' output block_size num_blocks : ℕ)
      (directory : DiskStream) (item : FatDirectoryItem)
      → Room v.heap
      → v.disk.sector_size ≡ 512
      → fd < 2 ^ 31
      → get_file_descriptor table fd ≡ some (descriptor_of fs idx p)
      → v.descriptor_at p ≡ some (file_at address a item pos)
      → whence < 2
      → get_first_cluster item < 0x10000
      → sought pos offset whence < 2 ^ 31
      → Chain
          (fat_of sector private_data)
          (sought pos offset whence / cluster_bytes private_data)
          (get_first_cluster item)
          c
      → 2 ≤ c
      → data_start private_data c (sought pos offset whence) + cluster_bytes private_data
        ≤ limit * 512
      → block_size ≢ 0
      → num_blocks ≢ 0
      → block_size * num_blocks ≤ cluster_bytes private_data
      → (v' : Volume alloc.State) × (fseek
            (λ _. fat16_fs read_sector alloc fuel fs)
            table
            fd
            offset
            whence
            (mount v private_data (streams_at q q' directory))
          ≡ some (0, v'))
        × Delivered
            (byte_at sector)
            v.memory
            output
            (data_start private_data c (sought pos offset whence))
            (block_size * num_blocks)
            (fread
              (λ _. fat16_fs read_sector alloc fuel fs)
              table
              output
              block_size
              num_blocks
              fd
              v')
  unfolding fseek fread fat16_fs seek_volume
  fread-fseek v table fd idx p address a pos offset whence c q q' output block_size num_blocks
        directory item room size fd_small gets opened mode small pos_small chain in_data inside
        some_size some_blocks fits =
      let new = sought pos offset whence in
      let v' =
        set_descriptor p (some (file_at address a item new))
          (mount v private_data (streams_at q q' directory)) in
      let read =
        read_at read_sector sector limit delivers bytes alloc Room serves fuel fs private_data
          reserved_small table_inside some_sectors few limit_small v' p q q' output block_size
          num_blocks new c directory address a item room size small pos_small chain in_data inside
          refl (rw (==_refl p) refl) fits in
      (
        v',
        rw
            (
              is_neg_small fd fd_small,
              gets,
              opened,
              seek_set_or_current address a pos offset whence item mode,
            )
            refl,
        rw (==_of_ne some_size, ==_of_ne some_blocks, is_neg_small fd fd_small, gets) read,
      )
