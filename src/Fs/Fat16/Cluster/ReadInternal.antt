-- ===== src/Fs/Fat16/Cluster/ReadInternal.antt =====
-- What `read_internal` of kernel/fs/fat/fat16.cpp puts into the buffer.
use mathlib.Core.Option
use n00b_os.Prelude.{
  ℕ, zero, suc, ◌+◌, ◌-◌, ◌*◌, ◌/◌, ◌%◌, ◌^◌, ◌≤◌, ◌<◌, ◌≡◌, true, false, if◌then◌else◌, ltb,
  Option, some, get_or-tabulate, length-tabulate, add32, sub32, mul32, slt, smod, arith, ap, ◌∙◌,
  tabulate, is_neg_small, slt_small, smod_small, min, dec_lt, lt→ltb, le→ltb,
}
use n00b_os.Disk.{Disk, SectorReader}
use n00b_os.Disk.Streamer.{Allocator, DiskStream, seek}
use n00b_os.Disk.Streamer.Bytes.{byte_at, Delivers, read_lem}
use n00b_os.Fs.Fat16.{FatPrivate, FatStreams}
use n00b_os.Fs.Fat16.Cluster.{
  cluster_size_bytes, cluster_to_sector, fill, read_internal_loop, read_internal,
}
use n00b_os.Fs.Fat16.Cluster.Chain.{
  Chain, ServesIn, streams_at, fat_of, cluster_bytes, cluster_size_lem, get_cluster-Chain,
  Chain-small,
}

-- The result 0 and a buffer that holds `n` bytes of the disk, from `start` on, before what stood in
-- `output` from byte `n` on.
pub data Filled (byte : ℕ → ℕ) {State : Type 0} (start n : ℕ) (output : ℕ → ℕ)
    (directory : DiskStream) : Option (ℕ × (ℕ → ℕ) × FatStreams × State) → Type 0 where
  filled :
      (g : ℕ → ℕ) (p q : ℕ) (s : State)
      → ((i : ℕ) → g i ≡ (if ltb i n then byte (start + i) else output i))
      → Filled byte start n output directory (some (0, g, streams_at p q directory, s))

fill-tabulate :
    (f : ℕ → ℕ) (p n : ℕ) (output : ℕ → ℕ) (i : ℕ)
    → fill (tabulate f p n) output i ≡ (if ltb i n then f (p + i) else output i)
unfolding fill
fill-tabulate f p n output i = rw (length-tabulate f p n) (elim (dec_lt i n) [
  | yes lt ↦ rw (lt→ltb i n lt) (get_or-tabulate f p n i 0 lt)
  | no ge ↦ rw (le→ltb i n (omega arith))
])

-- A shorter piece of the same bytes on top changes nothing.
Filled-over :
    {byte : ℕ → ℕ} {State : Type 0} {start n k : ℕ} {output output' : ℕ → ℕ}
    {directory : DiskStream} {r : Option (ℕ × (ℕ → ℕ) × FatStreams × State)}
    → k ≤ n
    → ((i : ℕ) → output' i ≡ (if ltb i n then byte (start + i) else output i))
    → Filled byte start k output' directory r
    → Filled byte start n output directory r
Filled-over {byte = byte} {start = start} {n = n} {k = k} {output = output} {output' = output'} le
      same (filled g p q s h) =
    filled g p q s λ i. ground (arith, h i, same i)

-- Where the byte at `offset` of a file lies whose cluster there is `c`.
abbrev pub data_start : FatPrivate → ℕ → ℕ → ℕ
data_start fs c offset =
    (fs.root_directory.sector_pos_end + (c - 2) * fs.header.primary_header.sectors_per_cluster)
      * 512
    + offset % cluster_bytes fs

module _ (d : Disk) (size : d.sector_size ≡ 512) (read_sector : SectorReader) (sector : ℕ → ℕ → ℕ)
    (limit : ℕ) (delivers : Delivers read_sector sector limit)
    (bytes : (p : ℕ) → byte_at sector p < 256) (alloc : Allocator) (Room : alloc.State → Type 0)
    (serves : ServesIn alloc Room) (fs : FatPrivate)
    (reserved_small : fs.header.primary_header.reserved_sectors < 0x10000)
    (table_inside : fs.header.primary_header.reserved_sectors + 256 ≤ limit)
    (some_sectors : 0 < fs.header.primary_header.sectors_per_cluster)
    (few : fs.header.primary_header.sectors_per_cluster < 256) (c c' offset : ℕ)
    (c_small : c < 0x10000) (offset_small : offset < 2 ^ 31)
    (chain : Chain (fat_of sector fs) (offset / cluster_bytes fs) c c') (in_data : 2 ≤ c')
    (inside : data_start fs c' offset + cluster_bytes fs ≤ limit * 512)
    (limit_small : limit * 512 < 2 ^ 31) where
  position :
      c' < 0x10000
      → add32
          (mul32 (cluster_to_sector fs c') d.sector_size)
          (smod offset (cluster_size_bytes d fs))
        ≡ data_start fs c' offset
  unfolding cluster_to_sector
  position small =
      let sectors = fs.header.primary_header.sectors_per_cluster in
      let first = fs.root_directory.sector_pos_end in
      let down : sub32 c' 2 ≡ c' - 2 = omega arith in
      let to_sector : add32 first (mul32 (c' - 2) sectors) ≡ first + (c' - 2) * sectors =
        omega arith in
      rw
        (
          cluster_size_lem d size read_sector sector limit delivers bytes alloc Room serves fs
              reserved_small table_inside few,
          smod_small offset (cluster_bytes fs) offset_small,
          down,
          to_sector,
        )
        (ap (λ n. add32 (mul32 (first + (c' - 2) * sectors) n) (offset % cluster_bytes fs)) size
          ∙ omega arith)

  piece :
      (total b : ℕ)
      → total < 2 ^ 31
      → b ≤ total
      → (if slt (cluster_size_bytes d fs) (sub32 total b)
          then cluster_size_bytes d fs
          else sub32 total b)
        ≡ min (cluster_bytes fs) (total - b)
  piece total b small le =
      let remaining : sub32 total b ≡ total - b = omega arith in
      rw
        (
          cluster_size_lem d size read_sector sector limit delivers bytes alloc Room serves fs
              reserved_small table_inside few,
          remaining,
          slt_small (cluster_bytes fs) (total - b) (omega arith) (omega arith),
        )
        (ground arith)

  loop_lem :
      (fuel total b p q : ℕ) (directory : DiskStream) (output : ℕ → ℕ) (s : alloc.State)
      → Room s
      → total < 2 ^ 31
      → b ≤ total
      → total - b < fuel
      → Filled
          (byte_at sector)
          (data_start fs c' offset)
          (min (cluster_bytes fs) (total - b))
          output
          directory
          (read_internal_loop d read_sector alloc fuel fs c offset total b 0 output
            (streams_at p q directory)
            s)
  unfolding read_internal_loop seek Option.bind
  loop_lem zero total b p q directory output s room total_small le enough = absurd (omega arith)
  loop_lem (suc fuel) total b p q directory output s room total_small le enough =
      elim (dec_lt b total) [
        | no done ↦
            let ends : slt b total ≡ false =
              slt_small b total (omega arith) (omega arith) ∙ le→ltb b total (omega arith) in
            let nothing : min (cluster_bytes fs) (total - b) ≡ 0 = omega arith in
            rw (ends, nothing) (filled output p q s λ i. ground arith)
        | yes more ↦
            let cs = cluster_bytes fs in
            let start = data_start fs c' offset in
            let n = min cs (total - b) in
            let runs : slt b total ≡ true =
              slt_small b total (omega arith) (omega arith) ∙ lt→ltb b total more in
            let (q', s1, walk, room1) =
              get_cluster-Chain d size read_sector sector limit delivers bytes alloc Room serves fs
                reserved_small table_inside c c' offset p q directory s few room c_small
                offset_small chain in
            let (buf, s2, s3, takes, frees, room3) = serves s1 room1 in
            let small =
              Chain-small d size read_sector sector limit delivers bytes alloc Room serves fs
                reserved_small table_inside c_small chain in
            let got =
              read_lem d size read_sector sector limit delivers alloc start n s1 s2 s3 buf
                (omega arith) (omega arith) takes frees in
            let next : add32 b n ≡ b + n = omega arith in
            rw
              (
                runs,
                walk,
                position small,
                piece total b total_small le,
                is_neg_small c' (omega arith),
                is_neg_small 0 (omega arith),
                got,
                is_neg_small 0 (omega arith),
                next,
              )
              (Filled-over (omega arith) (fill-tabulate (byte_at sector) start n output) (
                loop_lem fuel total (b + n) (start + n) q' directory
                  (fill (tabulate (byte_at sector) start n) output) s3 room3 total_small
                  (omega arith) (omega arith)))
      ]

  -- `read_internal` of any number of bytes that fits an `int` returns 0, but it puts no more than one
  -- cluster's size of them into the buffer: the bytes of the disk from the place of `offset` on, all
  -- read from there, and leaves the rest of the buffer as it was. For an offset that the file's
  -- chain reaches, a file system with 1 to 255 sectors per cluster whose table and clusters lie on
  -- the disk, a device that delivers the disk's 512-byte sectors, and a heap with room for a
  -- sector.
  pub read_internal-Filled :
      (total p q : ℕ) (directory : DiskStream) (output : ℕ → ℕ) (s : alloc.State)
      → Room s
      → total < 2 ^ 31
      → Filled
          (byte_at sector)
          (data_start fs c' offset)
          (min (cluster_bytes fs) total)
          output
          directory
          (read_internal d read_sector alloc fs c offset total output (streams_at p q directory) s)
  unfolding read_internal
  read_internal-Filled total p q directory output s room small =
      let whole : total - 0 ≡ total = omega arith in
      rw whole at
        (loop_lem (total + 1) total 0 p q directory output s room small (omega arith) (omega arith))
