-- ===== src/Heap/FirstFit/Live.antt =====
-- The heap table as the set of live allocations: an abstract view of kernel/mm/heap that
-- `heap_malloc` and `heap_free` keep.
use mathlib.Core.Option
use n00b_os.Prelude.{
  ℕ, ◌+◌, ◌-◌, ◌*◌, ◌/◌, ◌^◌, ◌≤◌, ◌<◌, ◌≡◌, refl, ◌⊎◌, inl, inr, true, arith, if◌then◌else◌,
  Option, some, List, [], ◌∷◌, All,
}
use n00b_os.Config.{heap_block_size}
use n00b_os.Libc.Memory.{Mem, within}
use n00b_os.Heap.{Heap, entry_address, align_to_upper}
use n00b_os.Heap.FirstFit.{is_free, heap_malloc, allocate_from}
use n00b_os.Heap.FirstFit.Search.{
  FreeRun, Found, found, no_memory, find_first_fit_start_block-Found,
}
use n00b_os.Heap.FirstFit.Marks.{
  IsPlaced, chain_entry, Allocated, ReturnsBlocks, returns, allocate_from-ReturnsBlocks,
}

-- First block and number of blocks of each allocation.
abbrev pub Blocks : Type 0
Blocks = List (ℕ × ℕ)

-- The entry of block `i` when exactly these allocations are live.
abbrev pub entry_of : Blocks → ℕ → ℕ
entry_of [] i = 0x00
entry_of ((b, n) ∷ live) i = if within b n i then chain_entry b n i else entry_of live i

abbrev pub Apart : ℕ × ℕ → ℕ × ℕ → Type 0
Apart x y = (x.0 + x.1 ≤ y.0) ⊎ (y.0 + y.1 ≤ x.0)

abbrev pub AllApart : Blocks → Type 0
AllApart [] = Unit
AllApart (x ∷ live) = All (Apart x) live × AllApart live

abbrev pub InTable : Heap → ℕ × ℕ → Type 0
InTable h x = (0 < x.1) × (x.0 + x.1 ≤ h.table.total_entries)

-- The table says that exactly the allocations `live` are live, and they do not overlap.
pub record Holds (h : Heap) (m : Mem) (live : Blocks) : Type 0 where
  pub entries : (i : ℕ) → i < h.table.total_entries → m (h.table.entries + i) ≡ entry_of live i
  pub in_table : All (InTable h) live
  pub apart : AllApart live

pub entry_of-Apart :
    (x : ℕ × ℕ) (live : Blocks) (i : ℕ)
    → All (Apart x) live
    → within x.0 x.1 i ≡ true
    → entry_of live i ≡ 0x00
entry_of-Apart x [] i apart w = refl
entry_of-Apart x (y ∷ live) i apart w = ground (arith, entry_of-Apart x live i apart.1 w)

entry_of-cases :
    (live : Blocks) (i : ℕ)
    → (entry_of live i ≡ 0x00) ⊎ ((entry_of live i ≡ 0x01) ⊎ (entry_of live i ≡ 0x81))
entry_of-cases [] i = inl refl
entry_of-cases ((b, n) ∷ live) i = ground (arith, entry_of-cases live i)

-- Blocks with a free entry lie in no live allocation.
free_run-Apart :
    (h : Heap) (live : Blocks) (b n : ℕ)
    → 0 < n
    → All (InTable h) live
    → ((i : ℕ) → i < n → entry_of live (b + i) ≡ 0x00)
    → All (Apart (b, n)) live
free_run-Apart h [] b n pos inside free = tt
free_run-Apart h ((c, k) ∷ live) b n pos inside free = (
  ground (arith, free 0, free (c - b), inside.0),
  free_run-Apart h live b n pos inside.1 λ i lt. ground (arith, free i lt),
)

module _ {h : Heap} (p : IsPlaced h) where
  is_free-entry_of :
      (m : Mem) (live : Blocks) (i : ℕ)
      → i < h.table.total_entries
      → m (h.table.entries + i) ≡ entry_of live i
      → is_free h m i ≡ true
      → entry_of live i ≡ 0x00
  unfolding is_free
  is_free-entry_of m live i lt e free =
      let at_i : entry_address h i ≡ h.table.entries + i = omega arith in
      elim (entry_of-cases live i) [
        | inl zero_entry ↦ zero_entry
        | inr (inl last) ↦
            let read : m (entry_address h i) ≡ 0x01 = rw (at_i, e, last) refl in
            cc (rw read at free)
        | inr (inr linked) ↦
            let read : m (entry_address h i) ≡ 0x81 = rw (at_i, e, linked) refl in
            cc (rw read at free)
      ]

  -- Allocating a free run adds it to the live allocations.
  Allocated-Holds :
      {m m' : Mem} {live : Blocks} (b n : ℕ)
      → 0 < n
      → FreeRun h m b n
      → Holds h m live
      → Allocated p b n m m'
      → Holds h m' ((b, n) ∷ live)
  Allocated-Holds {m} {live} b n pos run was alloc =
      let inside = run.inside in
      record {
        entries = λ i lt. ground (arith, alloc.entries i lt, was.entries i lt);
        in_table = ((pos, inside), was.in_table);
        apart = (
          free_run-Apart h live b n pos was.in_table λ i lt.
              is_free-entry_of m live (b + i) (omega arith) (was.entries (b + i) (omega arith))
                (run.free i lt),
          was.apart,
        );
      }

  -- What `heap_malloc` returns where `n` blocks are free somewhere: the address of the first run
  -- of `n` free blocks, which is live behind the call.
  pub data Served (n : ℕ) (m : Mem) (live : Blocks) : Option (ℕ × Mem) → Type 0 where
    served :
        (b : ℕ) (m' : Mem)
        → FreeRun h m b n
        → ((j : ℕ) → j < b → ¬ FreeRun h m j n)
        → Holds h m' ((b, n) ∷ live)
        → Allocated p b n m m'
        → Served n m live (some (h.start_address + b * heap_block_size, m'))

  ReturnsBlocks-Served :
      {n : ℕ} {m : Mem} {live : Blocks} (b : ℕ) (r : Option (ℕ × Mem))
      → 0 < n
      → FreeRun h m b n
      → ((j : ℕ) → j < b → ¬ FreeRun h m j n)
      → Holds h m live
      → ReturnsBlocks p b n m r
      → Served n m live r
  ReturnsBlocks-Served b r pos run first was (returns m' alloc) =
      served b m' run first (Allocated-Holds b _ pos run was alloc) alloc

  Found-Served :
      (n : ℕ) {m : Mem} {live : Blocks} (j : ℕ) (r : Option ℕ)
      → 0 < n
      → FreeRun h m j n
      → Holds h m live
      → Found h m n r
      → Served n m live (Option.bind r (λ b. allocate_from h (n * heap_block_size) b m))
  unfolding Option.bind
  Found-Served n {m} j r pos some_run was (found b run first) =
      let inside = run.inside in
      ReturnsBlocks-Served b _ pos run first was (allocate_from-ReturnsBlocks p b n m pos inside)
  Found-Served n j r pos some_run was (no_memory none_at) = absurd (none_at j some_run)

  -- For a size that rounds up within 32 bits, `n` blocks where `n = block_size / 4096 + 1`: if some
  -- run of `n` blocks is free, `heap_malloc` returns the address of the lowest such run. Behind the
  -- call the run's bytes are zero, the table holds it as one more live allocation that overlaps no
  -- other, and nothing outside its entries and bytes has changed.
  pub heap_malloc-Served :
      (block_size : ℕ) {m : Mem} {live : Blocks} (j : ℕ)
      → block_size < 2 ^ 32 - heap_block_size
      → FreeRun h m j (block_size / heap_block_size + 1)
      → Holds h m live
      → Served (block_size / heap_block_size + 1) m live (heap_malloc h block_size m)
  unfolding heap_malloc align_to_upper
  heap_malloc-Served block_size {m} j small run was =
      let n = block_size / heap_block_size + 1 in
      let inside = run.inside in
      let aligned : align_to_upper block_size ≡ n * heap_block_size = omega arith in
      rw aligned (
        Found-Served n j _ (omega arith) run was
          (find_first_fit_start_block-Found h m n p.small (omega arith) (omega arith)))
