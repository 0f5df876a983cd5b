-- ===== src/Fs/Fat16/Directory/Count.antt =====
-- What `get_directory_total_items` of kernel/fs/fat/fat16.cpp counts and delivers.
use mathlib.Core.Option
use mathlib.Core.List.{append-nil, append_assoc}
use n00b_os.Prelude.{
  ℕ, zero, suc, ◌+◌, ◌*◌, ◌^◌, ◌<◌, ◌≤◌, ◌≡◌, ◌≢◌, refl, ap, ◌∙◌, Bool, true, false, ==_of_ne,
  if◌then◌else◌, some, List, [], ◌∷◌, ◌++◌, length, get_or, get_or-tabulate, tabulate, tabulate-ext,
  add32, mul32, arith,
}
use n00b_os.Disk.{Disk, primary, SectorReader}
use n00b_os.Disk.Streamer.{Allocator, seek, read}
use n00b_os.Disk.Streamer.Bytes.{byte_at, Delivers, read_lem}
use n00b_os.Fs.Fat16.{FatStreams, FatDirectoryItem}
use n00b_os.Fs.Fat16.Cluster.Chain.{Serves}
use n00b_os.Fs.Fat16.Directory.{
  le16, item_at, mark, clone_directory_item, count_loop, get_directory_total_items,
}

-- The entries from byte `p` on: `n` of them, unused or in use, stand before the one that ends the
-- directory, and those in use are `items`.
pub data Listed (byte : ℕ → ℕ) : ℕ → ℕ → List FatDirectoryItem → Type 0 where
  ends : {p : ℕ} → mark (item_at byte p) ≡ 0x00 → Listed byte 0 p []
  unused :
      {n p : ℕ} {items : List FatDirectoryItem}
      → mark (item_at byte p) ≡ 0xE5
      → Listed byte n (p + 32) items
      → Listed byte (suc n) p items
  used :
      {n p : ℕ} {items : List FatDirectoryItem}
      → mark (item_at byte p) ≢ 0x00
      → mark (item_at byte p) ≢ 0xE5
      → Listed byte n (p + 32) items
      → Listed byte (suc n) p (item_at byte p ∷ items)

-- A request for a copy of an item is served.
abbrev pub Copies : Allocator → Type 0
Copies alloc =
    (s : alloc.State) → (a : ℕ) × (s' : alloc.State) × (alloc.kzalloc 32 s ≡ some (a, s')) × (a ≢ 0)

module _ (f g : ℕ → ℕ) (q : ℕ) (same : (i : ℕ) → i < 32 → f i ≡ g (q + i)) where
  le16-ext : (k : ℕ) → k + 1 < 32 → le16 f k ≡ le16 g (q + k)
  le16-ext k lt =
      let next : q + (k + 1) ≡ q + k + 1 = omega arith in
      let second : f (k + 1) ≡ g (q + k + 1) = same (k + 1) lt ∙ ap g next in
      rw (same k (omega arith), second)

  pub item_at-ext : item_at f 0 ≡ item_at g q
  unfolding item_at
  item_at-ext =
      let shifted : (i : ℕ) → i < 32 → f (0 + i) ≡ g (q + i) =
        λ i lt. ap f (omega arith) ∙ same i lt in
      let name = tabulate-ext f g 8 0 q (λ i lt. shifted i (omega arith)) in
      let ext : tabulate f 8 3 ≡ tabulate g (q + 8) 3 =
        tabulate-ext f g 3 8 (q + 8) (λ i lt. same (8 + i) (omega arith) ∙ ap g (omega arith)) in
      let high : le16 f 30 ≡ le16 g (q + 28 + 2) =
        le16-ext 30 (omega arith) ∙ ap (le16 g) (omega arith) in
      rw
        (
          name,
          ext,
          same 11 (omega arith),
          same 12 (omega arith),
          same 13 (omega arith),
          le16-ext 14 (omega arith),
          le16-ext 16 (omega arith),
          le16-ext 18 (omega arith),
          le16-ext 20 (omega arith),
          le16-ext 22 (omega arith),
          le16-ext 24 (omega arith),
          le16-ext 26 (omega arith),
          le16-ext 28 (omega arith),
          high,
        )
        refl

if-append-nil : (b : Bool) (acc : List FatDirectoryItem) → (if b then acc ++ [] else acc) ≡ acc
if-append-nil true acc = append-nil acc
if-append-nil false acc = refl

module _ (d : Disk) (size : d.sector_size ≡ 512) (read_sector : SectorReader) (sector : ℕ → ℕ → ℕ)
    (limit : ℕ) (delivers : Delivers read_sector sector limit) (alloc : Allocator)
    (after : alloc.State → alloc.State) (serves : Serves alloc after) (copies : Copies alloc) where
  item_read :
      (p : ℕ)
      → item_at (λ i. get_or (tabulate (byte_at sector) p 32) i 0) 0 ≡ item_at (byte_at sector) p
  item_read p =
      item_at-ext (λ i. get_or (tabulate (byte_at sector) p 32) i 0) (byte_at sector) p
        (λ i lt. get_or-tabulate (byte_at sector) p 32 i 0 lt)

  read_item :
      (p : ℕ) (s : alloc.State)
      → p + 32 < 2 ^ 31
      → p + 32 ≤ limit * 512
      → read d read_sector alloc (record { pos = p; d = primary }) 32 s
        ≡ some (0, tabulate (byte_at sector) p 32, record { pos = p + 32; d = primary }, after s)
  read_item p s small inside =
      let (buf, s1, takes, frees) = serves s in
      read_lem d size read_sector sector limit delivers alloc p 32 s s1 (after s) buf small inside
        takes frees

  clone_lem :
      (item : FatDirectoryItem) (s : alloc.State)
      → (s' : alloc.State) × (a : ℕ) × (clone_directory_item d read_sector alloc item 32 s
          ≡ some (some (a, item), s'))
  unfolding clone_directory_item
  clone_lem item s =
      let (a, s', takes, nonzero) = copies s in (s', a, rw (takes, ==_of_ne nonzero) refl)

  count_loop_lem :
      (fuel n p num : ℕ) (populate : Bool) (items acc : List FatDirectoryItem) (s : alloc.State)
      → Listed (byte_at sector) n p items
      → n < fuel
      → p + suc n * 32 ≤ limit * 512
      → p + suc n * 32 < 2 ^ 31
      → num + n < 2 ^ 31
      → (s' : alloc.State) × (count_loop d read_sector alloc fuel populate num acc
            (record { pos = p; d = primary })
            s
          ≡ some (
            num + length items,
            (if populate then acc ++ items else acc),
            record { pos = p + suc n * 32; d = primary },
            s',
          ))
  unfolding count_loop Option.bind
  count_loop_lem zero n p num populate items acc s listed enough inside small few =
      absurd (omega arith)
  count_loop_lem (suc fuel) n p num populate items acc s (ends mark_end) enough inside small few =
      let zero_more : num + 0 ≡ num = omega arith in
      (
        after s,
        rw (read_item p s (omega arith) (omega arith), item_read p, mark_end, zero_more)
            (rw (if-append-nil populate acc) refl),
      )
  count_loop_lem (suc fuel) n p num populate items acc s (unused {n = k} mark_unused rest) enough
        inside small few =
      let moved : p + 32 + suc k * 32 ≡ p + suc (suc k) * 32 = omega arith in
      let (s', counts) =
        count_loop_lem fuel k (p + 32) num populate items acc (after s) rest (omega arith)
          (omega arith) (omega arith) (omega arith) in
      (
        s',
        rw (read_item p s (omega arith) (omega arith), item_read p, mark_unused)
            (rw moved at counts),
      )
  count_loop_lem (suc fuel) n p num true items acc s
        (used {n = k} {items = items'} nonzero in_use rest) enough inside small few =
      let item = item_at (byte_at sector) p in
      let moved : p + 32 + suc k * 32 ≡ p + suc (suc k) * 32 = omega arith in
      let counted : num + 1 + length items' ≡ num + suc (length items') = omega arith in
      let (s1, a, copies_item) = clone_lem item (after s) in
      let (s', counts) =
        count_loop_lem fuel k (p + 32) (num + 1) true items' (acc ++ item ∷ []) s1 rest
          (omega arith) (omega arith) (omega arith) (omega arith) in
      let next : add32 num 1 ≡ num + 1 = omega arith in
      (
        s',
        rw
            (
              read_item p s (omega arith) (omega arith),
              item_read p,
              ==_of_ne nonzero,
              ==_of_ne in_use,
              copies_item,
              next,
            )
            (rw (moved, counted, append_assoc acc (item ∷ []) items') at counts),
      )
  count_loop_lem (suc fuel) n p num false items acc s
        (used {n = k} {items = items'} nonzero in_use rest) enough inside small few =
      let moved : p + 32 + suc k * 32 ≡ p + suc (suc k) * 32 = omega arith in
      let counted : num + 1 + length items' ≡ num + suc (length items') = omega arith in
      let (s', counts) =
        count_loop_lem fuel k (p + 32) (num + 1) false items' acc (after s) rest (omega arith)
          (omega arith) (omega arith) (omega arith) in
      let next : add32 num 1 ≡ num + 1 = omega arith in
      (
        s',
        rw
            (
              read_item p s (omega arith) (omega arith),
              item_read p,
              ==_of_ne nonzero,
              ==_of_ne in_use,
              next,
            )
            (rw (moved, counted) at counts),
      )

  -- `get_directory_total_items` returns the number of the entries in use before the one that ends the
  -- directory, and where a directory is given it delivers exactly these items, in their order. For a
  -- directory that ends on the disk below 2 ^ 31, fuel for more entries than stand before its end, a
  -- device that delivers the disk's 512-byte sectors, and requests that are served.
  pub get_directory_total_items-Listed :
      (fuel n start q : ℕ) (populate : Bool) (items : List FatDirectoryItem) (streams : FatStreams)
      (s : alloc.State)
      → streams.directory_read_stream ≡ record { pos = q; d = primary }
      → Listed (byte_at sector) n (start * 512) items
      → n < fuel
      → start * 512 + suc n * 32 ≤ limit * 512
      → start * 512 + suc n * 32 < 2 ^ 31
      → (s' : alloc.State) × (get_directory_total_items d read_sector alloc fuel start populate
            streams s
          ≡ some (
            length items,
            (if populate then items else []),
            record streams {
              directory_read_stream = record { pos = start * 512 + suc n * 32; d = primary };
            },
            s',
          ))
  unfolding get_directory_total_items seek
  get_directory_total_items-Listed fuel n start q populate items streams s of_disk listed enough
        inside small =
      let (s', counts) =
        count_loop_lem fuel n (start * 512) 0 populate items [] s listed enough inside small
          (omega arith) in
      let at : mul32 start d.sector_size ≡ start * 512 = ap (mul32 start) size ∙ omega arith in
      let from_zero : 0 + length items ≡ length items = omega arith in
      (s', rw (of_disk, at, counts, from_zero) refl)
