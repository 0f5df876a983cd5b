-- ===== src/Heap/FirstFit/Release.antt =====
-- What `heap_free` of find_first_fit_strategy.cpp does to the live allocations.
use n00b_os.Prelude.{
  ℕ, ◌+◌, ◌-◌, ◌*◌, ◌/◌, ◌≡◌, inl, inr, true, false, arith, Bool-cases, sub32, List, [], ◌∷◌, ◌++◌,
  All, ◌∙◌,
}
use n00b_os.Config.{heap_block_size}
use n00b_os.Libc.Memory.{Mem, within}
use n00b_os.Heap.{Heap, block_address_2_block_idx}
use n00b_os.Heap.FirstFit.{heap_free}
use n00b_os.Heap.FirstFit.Marks.{IsPlaced, chain_entry, free_loop_lem}
use n00b_os.Heap.FirstFit.Live.{Blocks, Holds, InTable, Apart, AllApart, entry_of, entry_of-Apart}

-- The element between two lists satisfies what all elements do, and the rest does too.
All-middle {ℓ κ} :
    {A : Type ℓ} (P : A → Type κ) (y : A) (ys xs : List A)
    → All P (xs ++ y ∷ ys)
    → P y × All P (xs ++ ys)
All-middle P y ys [] a = a
All-middle P y ys (x ∷ xs) a = let (at_y, rest) = All-middle P y ys xs a.1 in (at_y, (a.0, rest))

AllApart-erase : (y : ℕ × ℕ) (ys xs : Blocks) → AllApart (xs ++ y ∷ ys) → AllApart (xs ++ ys)
AllApart-erase y ys [] a = a.1
AllApart-erase y ys (x ∷ xs) a = ((All-middle (Apart x) y ys xs a.0).1, AllApart-erase y ys xs a.1)

module _ (b n : ℕ) (behind : Blocks) where
  entry_of_self :
      (before : Blocks) (i : ℕ)
      → AllApart (before ++ (b, n) ∷ behind)
      → within b n i ≡ true
      → entry_of (before ++ (b, n) ∷ behind) i ≡ chain_entry b n i
  entry_of_self [] i apart w = ground arith
  entry_of_self (y ∷ before) i apart w = ground (
    arith,
    (All-middle (Apart y) (b, n) behind before apart.0).0,
    entry_of_self before i apart.1 w,
  )

  entry_of-erase_self :
      (before : Blocks) (i : ℕ)
      → AllApart (before ++ (b, n) ∷ behind)
      → within b n i ≡ true
      → entry_of (before ++ behind) i ≡ 0x00
  entry_of-erase_self [] i apart w = entry_of-Apart (b, n) behind i apart.0 w
  entry_of-erase_self (y ∷ before) i apart w = ground (
    arith,
    (All-middle (Apart y) (b, n) behind before apart.0).0,
    entry_of-erase_self before i apart.1 w,
  )

  entry_of-erase_other :
      (before : Blocks) (i : ℕ)
      → within b n i ≡ false
      → entry_of (before ++ (b, n) ∷ behind) i ≡ entry_of (before ++ behind) i
  entry_of-erase_other [] i out = ground arith
  entry_of-erase_other (y ∷ before) i out = ground (arith, entry_of-erase_other before i out)

  -- `heap_free` at the address of a live allocation leaves exactly the other allocations live, and
  -- writes nowhere but in the table.
  pub heap_free-Holds :
      {h : Heap} {m : Mem} (before : Blocks)
      → IsPlaced h
      → Holds h m (before ++ (b, n) ∷ behind)
      → let m' = heap_free h (h.start_address + b * heap_block_size) m in
        Holds h m' (before ++ behind)
        × ((a : ℕ) → within h.table.entries h.table.total_entries a ≡ false → m' a ≡ m a)
  unfolding heap_free block_address_2_block_idx
  heap_free-Holds {h} {m} before p was =
      let (mine, others) = All-middle (InTable h) (b, n) behind before was.in_table in
      let idx_eq : sub32 (h.start_address + b * heap_block_size) h.start_address / heap_block_size
          ≡ b =
        omega arith in
      let freed = λ (a : ℕ).
        free_loop_lem p (h.table.total_entries - b) b n m a mine.0 (omega arith) (omega arith)
          λ i lo hi.
            was.entries i (omega arith) ∙ entry_of_self before i was.apart (ground arith) in
      rw idx_eq (
        record {
          entries = λ i lt. elim (Bool-cases (within b n i)) [
            | inl w ↦
                ground
                  (arith, freed (h.table.entries + i), entry_of-erase_self before i was.apart w)
            | inr out ↦ ground (
              arith,
              freed (h.table.entries + i),
              was.entries i lt,
              entry_of-erase_other before i out,
            )
          ];
          in_table = others;
          apart = AllApart-erase (b, n) behind before was.apart;
        },
        λ a out. ground (arith, freed a),
      )
