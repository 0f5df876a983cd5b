-- ===== src/Fs/Fat16/Cluster.antt =====
-- kernel/fs/fat/fat16.cpp: from the clusters of a file to the bytes on disk. An `int` is its 32-bit
-- pattern. The outer `none` is a call that does not return.
pub mod Chain
pub mod ReadInternal
use mathlib.Core.Option
use n00b_os.Prelude.{
  ℕ, zero, suc, ◌+◌, ◌-◌, ◌*◌, Bool, true, false, ◌&&◌, ◌||◌, ◌==◌, if◌then◌else◌, ltb, leb, Option,
  none, some, List, [], ◌∷◌, get_or, length, add32, sub32, mul32, neg32, slt, sdiv, smod, rounds,
  is_neg, bit_or,
}
use n00b_os.Config.{eio}
use n00b_os.Disk.{Disk, SectorReader}
use n00b_os.Disk.Streamer.{Allocator, DiskStream, seek, read}
use n00b_os.Fs.Fat16.{
  FatPrivate, FatStreams, FatDirectoryItem, fat16_fat_entry_size, fat16_fat_reserved_cluster_start,
  fat16_fat_reserved_cluster_end, fat16_fat_bad_sector, fat16_fat_last_cluster_in_file_start,
  fat16_fat_last_cluster_in_file_end, fat16_unused,
}

unfoldable pub get_first_cluster : FatDirectoryItem → ℕ
get_first_cluster directory_item =
    bit_or directory_item.hi_16bits_first_cluster directory_item.lo_16bits_first_cluster

unfoldable pub cluster_to_sector : FatPrivate → ℕ → ℕ
cluster_to_sector private_data cluster =
    add32 private_data.root_directory.sector_pos_end
      (mul32 (sub32 cluster 2) private_data.header.primary_header.sectors_per_cluster)

unfoldable pub cluster_size_bytes : Disk → FatPrivate → ℕ
cluster_size_bytes d private_data =
    mul32 private_data.header.primary_header.sectors_per_cluster d.sector_size

-- Whether `get_cluster` ends with -EIO at this entry of the table.
unfoldable pub ends_chain : ℕ → Bool
ends_chain fat_entry =
    (leb fat16_fat_last_cluster_in_file_start fat_entry
      && leb fat_entry fat16_fat_last_cluster_in_file_end)
    || (fat_entry == fat16_fat_bad_sector
        || ((leb fat16_fat_reserved_cluster_start fat_entry
              && leb fat_entry fat16_fat_reserved_cluster_end)
            || fat_entry == fat16_unused))

-- The buffer after `bytes` are written to its start.
unfoldable pub fill : List ℕ → (ℕ → ℕ) → ℕ → ℕ
fill bytes output i = if ltb i (length bytes) then get_or bytes i 0 else output i

module _ (d : Disk) (read_sector : SectorReader) (alloc : Allocator) where
  open alloc use {State}

  -- The entry or the error, and the streams and the allocator behind the call. `d` is the primary
  -- disk, and the private data its `fs_private_data`.
  unfoldable pub get_fat_entry :
      FatPrivate → ℕ → FatStreams → State → Option (ℕ × FatStreams × State)
  unfolding seek Option.bind
  get_fat_entry private_data cluster streams s = elim streams.fat_read_stream [
    | none ↦ some (neg32 1, streams, s)
    | some fat_stream ↦
        let first_fat_sector = private_data.header.primary_header.reserved_sectors in
        let fat_table_pos = mul32 first_fat_sector d.sector_size in
        let (res, sought) =
          seek fat_stream (add32 fat_table_pos (mul32 cluster fat16_fat_entry_size)) in
        if is_neg res
        then some (res, record streams { fat_read_stream = some sought }, s)
        else Option.map
            (λ (res', fat_entry, stream', s'). (
              if is_neg res' then res' else get_or fat_entry 0 0 + get_or fat_entry 1 0 * 256,
              record streams { fat_read_stream = some stream' },
              s',
            ))
            (read d read_sector alloc sought 2 s)
  ]

  -- The loop of `get_cluster` with `k` rounds left.
  unfoldable pub get_cluster_loop :
      ℕ → FatPrivate → ℕ → FatStreams → State → Option (ℕ × FatStreams × State)
  unfolding Option.bind
  get_cluster_loop zero private_data cluster streams s = some (cluster, streams, s)
  get_cluster_loop (suc k) private_data cluster streams s =
      Option.bind (get_fat_entry private_data cluster streams s) (λ (fat_entry, streams', s').
        let rest = get_cluster_loop k private_data fat_entry streams' s' in
        if is_neg fat_entry
        then some (fat_entry, streams', s')
        else if ends_chain fat_entry
        then some (neg32 eio, streams', s')
        else rest)

  unfoldable pub get_cluster :
      FatPrivate → ℕ → ℕ → FatStreams → State → Option (ℕ × FatStreams × State)
  get_cluster private_data starting_cluster offset streams s =
      let cluster_offset = sdiv offset (cluster_size_bytes d private_data) in
      get_cluster_loop (rounds cluster_offset) private_data starting_cluster streams s

  -- The loop of `read_internal_from_stream` with `cluster_read_stream` on fuel: the result, the
  -- buffer, the streams and the allocator.
  unfoldable pub read_internal_loop :
      ℕ
      → FatPrivate
      → ℕ
      → ℕ
      → ℕ
      → ℕ
      → ℕ
      → (ℕ → ℕ)
      → FatStreams
      → State
      → Option (ℕ × (ℕ → ℕ) × FatStreams × State)
  unfolding Option.bind seek
  read_internal_loop zero private_data starting_cluster offset total_bytes bytes_read res output
        streams s =
      none
  read_internal_loop (suc fuel) private_data starting_cluster offset total_bytes bytes_read res
        output streams s =
      let round =
        Option.bind (get_cluster private_data starting_cluster offset streams s)
          (λ (cluster, streams1, s1).
            let cluster_size = cluster_size_bytes d private_data in
            let offset_from_cluster = smod offset cluster_size in
            let starting_sector = cluster_to_sector private_data cluster in
            let starting_pos = add32 (mul32 starting_sector d.sector_size) offset_from_cluster in
            let bytes_remaining = sub32 total_bytes bytes_read in
            let total_to_read =
              if slt cluster_size bytes_remaining then cluster_size else bytes_remaining in
            let (sought, stream) = seek streams1.cluster_read_stream starting_pos in
            if is_neg cluster
            then some (cluster, output, streams1, s1)
            else if is_neg sought
            then some (sought, output, record streams1 { cluster_read_stream = stream }, s1)
            else Option.bind (read d read_sector alloc stream total_to_read s1)
                (λ (res', bytes, stream', s2).
                  let output' = fill bytes output in
                  let streams2 = record streams1 { cluster_read_stream = stream' } in
                  let rest =
                    read_internal_loop fuel private_data starting_cluster offset total_bytes
                      (add32 bytes_read total_to_read) res' output' streams2 s2 in
                  if is_neg res' then some (res', output', streams2, s2) else rest)) in
      if slt bytes_read total_bytes then round else some (res, output, streams, s)

  -- On fuel for one round more than there are bytes to read.
  unfoldable pub read_internal :
      FatPrivate
      → ℕ
      → ℕ
      → ℕ
      → (ℕ → ℕ)
      → FatStreams
      → State
      → Option (ℕ × (ℕ → ℕ) × FatStreams × State)
  read_internal private_data starting_cluster offset total_bytes output streams s =
      read_internal_loop (total_bytes + 1) private_data starting_cluster offset total_bytes 0 0
        output streams s
