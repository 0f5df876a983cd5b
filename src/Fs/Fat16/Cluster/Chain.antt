-- ===== src/Fs/Fat16/Cluster/Chain.antt =====
-- What `get_fat_entry` and `get_cluster` of kernel/fs/fat/fat16.cpp find on a disk with 512-byte
-- sectors that the device delivers, with a heap that has room for a sector.
use mathlib.Core.Option
use native.Mathlib.Nat.{div-le_self}
use n00b_os.Prelude.{
  ℕ, zero, suc, ◌+◌, ◌*◌, ◌/◌, ◌^◌, ◌≤◌, ◌<◌, ◌≡◌, ◌≢◌, refl, ◌⊎◌, inl, inr, true, false, Option,
  some, add32, mul32, neg32, sdiv, rounds, arith, ap, ◌∙◌, is_neg_small, rounds_small, sdiv_small,
}
use n00b_os.Config.{eio}
use n00b_os.Disk.{Disk, primary, SectorReader}
use n00b_os.Disk.Streamer.{Allocator, DiskStream, seek}
use n00b_os.Disk.Streamer.Bytes.{byte_at, Delivers, read_lem}
use n00b_os.Fs.Fat16.{FatPrivate, FatStreams}
use n00b_os.Fs.Fat16.Cluster.{
  cluster_size_bytes, ends_chain, get_fat_entry, get_cluster_loop, get_cluster,
}

-- The entry for cluster `c` of the table that starts at byte `table` of the disk.
abbrev pub entry_at : (ℕ → ℕ) → ℕ → ℕ → ℕ
entry_at byte table c = byte (table + c * 2) + byte (table + c * 2 + 1) * 256

-- `Chain fat k c c'`: k entries of the table lead from cluster `c` to `c'`, all of them in use.
pub data Chain (fat : ℕ → ℕ) : ℕ → ℕ → ℕ → Type 0 where
  here : {c : ℕ} → Chain fat 0 c c
  next : {k c c' : ℕ} → fat c ≢ 0 → fat c < 0xFFF0 → Chain fat k (fat c) c' → Chain fat (suc k) c c'

-- `Broken fat k c`: among the first k entries from cluster `c` on is one that is unused, reserved,
-- bad or the end of the file.
pub data Broken (fat : ℕ → ℕ) : ℕ → ℕ → Type 0 where
  stop : {k c : ℕ} → (fat c ≡ 0) ⊎ (0xFFF0 ≤ fat c) → Broken fat (suc k) c
  later : {k c : ℕ} → fat c ≢ 0 → fat c < 0xFFF0 → Broken fat k (fat c) → Broken fat (suc k) c

-- The streams of the primary disk.
abbrev pub streams_at : ℕ → ℕ → DiskStream → FatStreams
streams_at cluster_pos fat_pos directory = record {
  cluster_read_stream = record { pos = cluster_pos; d = primary };
  fat_read_stream = some (record { pos = fat_pos; d = primary });
  directory_read_stream = directory;
}

-- The two results of a walk of `k` entries from cluster `c` on; of the streams only the one of the
-- table has moved.
pub data Walked (fat : ℕ → ℕ) {State : Type 0} (cluster_pos : ℕ) (directory : DiskStream) (k c : ℕ)
    : Option (ℕ × FatStreams × State) → Type 0 where
  found :
      (c' q : ℕ) (s : State)
      → Chain fat k c c'
      → c' < 0x10000
      → Walked fat cluster_pos directory k c (some (c', streams_at cluster_pos q directory, s))
  broken :
      (q : ℕ) (s : State)
      → Broken fat k c
      → Walked fat cluster_pos directory k c
          (some (neg32 eio, streams_at cluster_pos q directory, s))

Walked-next :
    {fat : ℕ → ℕ} {State : Type 0} {p k c : ℕ} {directory : DiskStream}
    {r : Option (ℕ × FatStreams × State)}
    → fat c ≢ 0
    → fat c < 0xFFF0
    → Walked fat p directory k (fat c) r
    → Walked fat p directory (suc k) c r
Walked-next used below (found c' q s chain small) = found c' q s (next used below chain) small
Walked-next used below (broken q s b) = broken q s (later used below b)

ends_chain_lem :
    (e : ℕ)
    → e < 0x10000
    → ((ends_chain e ≡ true) × ((e ≡ 0) ⊎ (0xFFF0 ≤ e)))
      ⊎ ((ends_chain e ≡ false) × (e ≢ 0) × (e < 0xFFF0))
unfolding ends_chain
ends_chain_lem e small = ground arith

-- Every request for a sector is served, and what it gets can be freed, with `after` left.
abbrev pub Serves : (alloc : Allocator) → (alloc.State → alloc.State) → Type 0
Serves alloc after =
    (s : alloc.State)
    → (b : ℕ) × (s1 : alloc.State) × (alloc.kzalloc 512 s ≡ some (b, s1))
      × (alloc.kfree b s1 ≡ some (after s))

-- So is each one in a state of `Room`, and what is left has room again.
abbrev pub ServesIn : (alloc : Allocator) → (alloc.State → Type 0) → Type 0
ServesIn alloc Room =
    (s : alloc.State)
    → Room s
    → (b : ℕ) × (s1 s2 : alloc.State) × (alloc.kzalloc 512 s ≡ some (b, s1))
      × (alloc.kfree b s1 ≡ some s2)
      × Room s2

abbrev pub Anywhere : {State : Type 0} → State → Type 0
Anywhere s = Unit

pub Serves-Anywhere :
    (alloc : Allocator) (after : alloc.State → alloc.State)
    → Serves alloc after
    → ServesIn alloc Anywhere
Serves-Anywhere alloc after serves s room =
    let (b, s1, takes, frees) = serves s in (b, s1, after s, takes, frees, tt)

-- The table of a file system and the bytes of a cluster, with 512-byte sectors.
abbrev pub table_start : FatPrivate → ℕ
table_start fs = fs.header.primary_header.reserved_sectors * 512

abbrev pub fat_of : (ℕ → ℕ → ℕ) → FatPrivate → ℕ → ℕ
fat_of sector fs = entry_at (byte_at sector) (table_start fs)

abbrev pub cluster_bytes : FatPrivate → ℕ
cluster_bytes fs = fs.header.primary_header.sectors_per_cluster * 512

module _ (d : Disk) (size : d.sector_size ≡ 512) (read_sector : SectorReader) (sector : ℕ → ℕ → ℕ)
    (limit : ℕ) (delivers : Delivers read_sector sector limit)
    (bytes : (p : ℕ) → byte_at sector p < 256) (alloc : Allocator) (Room : alloc.State → Type 0)
    (serves : ServesIn alloc Room) (fs : FatPrivate)
    (reserved_small : fs.header.primary_header.reserved_sectors < 0x10000)
    (table_inside : fs.header.primary_header.reserved_sectors + 256 ≤ limit) where
  fat_small : (c : ℕ) → fat_of sector fs c < 0x10000
  fat_small c = omega (arith, bytes (table_start fs + c * 2), bytes (table_start fs + c * 2 + 1))

  pub Chain-small : {k c c' : ℕ} → c < 0x10000 → Chain (fat_of sector fs) k c c' → c' < 0x10000
  Chain-small small here = small
  Chain-small {c = c} small (next used below chain) = Chain-small (fat_small c) chain

  get_fat_entry_lem :
      (c p q : ℕ) (directory : DiskStream) (s : alloc.State)
      → Room s
      → c < 0x10000
      → (s' : alloc.State) × (get_fat_entry d read_sector alloc fs c (streams_at p q directory) s
          ≡ some (fat_of sector fs c, streams_at p (table_start fs + c * 2 + 2) directory, s'))
        × Room s'
  unfolding get_fat_entry seek
  get_fat_entry_lem c p q directory s room small =
      let (buf, s1, s2, takes, frees, room2) = serves s room in
      let reserved = fs.header.primary_header.reserved_sectors in
      let at : add32 (mul32 reserved d.sector_size) (mul32 c 2) ≡ table_start fs + c * 2 =
        ap (λ n. add32 (mul32 reserved n) (mul32 c 2)) size ∙ omega arith in
      let got =
        read_lem d size read_sector sector limit delivers alloc (table_start fs + c * 2) 2 s s1 s2
          buf (omega arith) (omega arith) takes frees in
      (s2, rw (at, is_neg_small 0 (omega arith), got, is_neg_small 0 (omega arith)) refl, room2)

  get_cluster_loop_lem :
      (k c p q : ℕ) (directory : DiskStream) (s : alloc.State)
      → Room s
      → c < 0x10000
      → Walked
          (fat_of sector fs)
          p
          directory
          k
          c
          (get_cluster_loop d read_sector alloc k fs c (streams_at p q directory) s)
  unfolding get_cluster_loop Option.bind
  get_cluster_loop_lem zero c p q directory s room small = found c q s here small
  get_cluster_loop_lem (suc k) c p q directory s room small =
      let (s', reads, room') = get_fat_entry_lem c p q directory s room small in
      let moved = table_start fs + c * 2 + 2 in
      let positive = is_neg_small (fat_of sector fs c) (omega (arith, fat_small c)) in
      rw (reads, positive)
        (elim (ends_chain_lem (fat_of sector fs c) (fat_small c)) [
          | inl (ends, why) ↦ rw ends (broken moved s' (stop why))
          | inr (goes_on, used, below) ↦ rw goes_on (
              Walked-next used below (
                get_cluster_loop_lem k (fat_of sector fs c) p moved directory s' room'
                  (fat_small c)))
        ])

  pub cluster_size_lem :
      fs.header.primary_header.sectors_per_cluster < 256
      → cluster_size_bytes d fs ≡ cluster_bytes fs
  unfolding cluster_size_bytes
  cluster_size_lem few =
      let per_cluster = fs.header.primary_header.sectors_per_cluster in
      ap (λ n. mul32 per_cluster n) size ∙ omega arith

  rounds_lem :
      (offset : ℕ)
      → fs.header.primary_header.sectors_per_cluster < 256
      → offset < 2 ^ 31
      → rounds (sdiv offset (cluster_size_bytes d fs)) ≡ offset / cluster_bytes fs
  rounds_lem offset few fits =
      let lt : offset / cluster_bytes fs < 2 ^ 31 =
        omega (arith, div-le_self offset (cluster_bytes fs)) in
      rw (cluster_size_lem few, sdiv_small offset (cluster_bytes fs) fits)
        (rounds_small (offset / cluster_bytes fs) lt)

  -- `get_cluster` returns the cluster that offset / cluster size entries of the table lead to from
  -- `c`, or -EIO if one of these entries is unused, reserved, bad or the end of the file; it moves
  -- no stream but the one of the table. For cluster numbers of 16 bits, offsets that fit an `int`, a
  -- file system with 1 to 255 sectors per cluster whose table lies on the disk, a device that
  -- delivers the disk's 512-byte sectors, and a heap with room for a sector.
  pub get_cluster-Walked :
      (c offset p q : ℕ) (directory : DiskStream) (s : alloc.State)
      → 0 < fs.header.primary_header.sectors_per_cluster
      → fs.header.primary_header.sectors_per_cluster < 256
      → Room s
      → c < 0x10000
      → offset < 2 ^ 31
      → Walked
          (fat_of sector fs)
          p
          directory
          (offset / cluster_bytes fs)
          c
          (get_cluster d read_sector alloc fs c offset (streams_at p q directory) s)
  unfolding get_cluster
  get_cluster-Walked c offset p q directory s some_sectors few room small fits =
      rw (rounds_lem offset few fits)
        (get_cluster_loop_lem (offset / cluster_bytes fs) c p q directory s room small)

  get_cluster_loop-Chain :
      {k c c' : ℕ} (p q : ℕ) (directory : DiskStream) (s : alloc.State)
      → Room s
      → c < 0x10000
      → Chain (fat_of sector fs) k c c'
      → (q' : ℕ) × (s' : alloc.State) × (get_cluster_loop d read_sector alloc k fs c
            (streams_at p q directory)
            s
          ≡ some (c', streams_at p q' directory, s'))
        × Room s'
  unfolding get_cluster_loop Option.bind
  get_cluster_loop-Chain p q directory s room small here = (q, s, refl, room)
  get_cluster_loop-Chain {c = c} p q directory s room small (next used below chain) =
      let (s1, reads, room1) = get_fat_entry_lem c p q directory s room small in
      let moved = table_start fs + c * 2 + 2 in
      let goes_on : ends_chain (fat_of sector fs c) ≡ false =
        elim (ends_chain_lem (fat_of sector fs c) (fat_small c)) [
          | inl (ends, why) ↦ absurd (omega arith)
          | inr (goes_on, _, _) ↦ goes_on
        ] in
      let (q', s', rest, room') =
        get_cluster_loop-Chain p moved directory s1 room1 (fat_small c) chain in
      (
        q',
        s',
        rw (reads, is_neg_small (fat_of sector fs c) (omega (arith, fat_small c)), goes_on) rest,
        room',
      )

  -- Where the chain is long enough `get_cluster` gives its cluster at the offset.
  pub get_cluster-Chain :
      (c c' offset p q : ℕ) (directory : DiskStream) (s : alloc.State)
      → fs.header.primary_header.sectors_per_cluster < 256
      → Room s
      → c < 0x10000
      → offset < 2 ^ 31
      → Chain (fat_of sector fs) (offset / cluster_bytes fs) c c'
      → (q' : ℕ) × (s' : alloc.State) × (get_cluster d read_sector alloc fs c offset
            (streams_at p q directory)
            s
          ≡ some (c', streams_at p q' directory, s'))
        × Room s'
  unfolding get_cluster
  get_cluster-Chain c c' offset p q directory s few room small fits chain =
      let (q', s', loop, room') = get_cluster_loop-Chain p q directory s room small chain in
      (q', s', rw (rounds_lem offset few fits) loop, room')
