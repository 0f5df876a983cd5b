-- ===== src/Heap/FirstFit/Marks.antt =====
-- What the loops of find_first_fit_strategy.cpp write: the marks of an allocation, and the freed
-- chain.
use mathlib.Core.Option
use n00b_os.Prelude.{
  ℕ, zero, suc, ◌+◌, ◌-◌, ◌*◌, ◌/◌, ◌^◌, ◌≤◌, ◌<◌, ◌≡◌, inl, inr, true, false, arith, ◌==◌,
  if◌then◌else◌, Bool-cases, le→leb, lt→leb, Option, some, mul32, add32, sub32, dec_le, dec_lt,
}
use n00b_os.Config.{heap_block_size}
use n00b_os.Libc.Memory.{Mem, store, within, memset}
use n00b_os.Libc.Memory.Laws.{memset_lem}
use n00b_os.Heap.{Heap, entry_address, is_first, block_idx_2_block_address}
use n00b_os.Heap.FirstFit.{mark_block, mark_loop, allocate_from, free_loop}

-- The table, the blocks and the heap's arithmetic fit a 32-bit address space, and the table ends
-- before the blocks begin.
pub record IsPlaced (h : Heap) : Type 0 where
  pub small : h.table.total_entries < 2 ^ 20
  pub below : h.table.entries + h.table.total_entries ≤ h.start_address
  pub room : h.start_address + h.table.total_entries * heap_block_size ≤ 2 ^ 32

-- The entry of block `i` in an allocation of `n` blocks from `b` on.
abbrev pub chain_entry : ℕ → ℕ → ℕ → ℕ
chain_entry b n i = if i + 1 == b + n then 0x01 else 0x81

module _ {h : Heap} (p : IsPlaced h) where
  mark_block_lem :
      (idx final : ℕ) (m : Mem) (a : ℕ)
      → idx < h.table.total_entries
      → mark_block h idx final m a
        ≡ (if a == h.table.entries + idx then (if idx == final then 0x01 else 0x81) else m a)
  unfolding mark_block
  mark_block_lem idx final m a lt = elim (Bool-cases (idx == final)) [
    | inl e ↦ rw e (ground arith)
    | inr e ↦ rw e (ground arith)
  ]

  -- The loop ends with the blocks from `idx` to `final` marked, and nothing else written.
  data Marked (idx final : ℕ) (m : Mem) : Option Mem → Type 0 where
    marked :
        (m' : Mem)
        → ((a : ℕ)
            → m' a ≡ (
                if within (h.table.entries + idx) (final + 1 - idx) a
                then (if a == h.table.entries + final then 0x01 else 0x81)
                else m a))
        → Marked idx final m (some m')

  Marked-mark_block :
      (idx final : ℕ) (m : Mem) (r : Option Mem)
      → final < h.table.total_entries
      → idx ≤ final
      → Marked (idx + 1) final (mark_block h idx final m) r
      → Marked idx final m r
  Marked-mark_block idx final m r inside le (marked m' holds) =
      marked m' λ a. ground (arith, holds a, mark_block_lem idx final m a (omega arith))

  mark_loop-Marked :
      (fuel idx final : ℕ) (m : Mem)
      → final < h.table.total_entries
      → idx ≤ final + 1
      → final + 1 < fuel + idx
      → Marked idx final m (mark_loop fuel h idx final m)
  unfolding mark_loop
  mark_loop-Marked zero idx final m inside le enough = absurd (omega arith)
  mark_loop-Marked (suc fuel) idx final m inside le enough = elim (dec_le idx final) [
    | yes more ↦
        let next : add32 idx 1 ≡ idx + 1 = omega arith in
        rw (le→leb idx final more, next)
          (Marked-mark_block idx final m _ inside more (
            mark_loop-Marked fuel (idx + 1) final (mark_block h idx final m) inside (omega arith)
              (omega arith)))
    | no done ↦ rw (lt→leb idx final (omega arith)) (marked m λ a. ground arith)
  ]

  -- What an allocation of `n` blocks from `b` on leaves: the bytes of the blocks are zero, their
  -- entries one chain, and nothing else has changed.
  pub record Allocated (b n : ℕ) (m m' : Mem) : Type 0 where
    pub entries :
        (i : ℕ)
        → i < h.table.total_entries
        → m' (h.table.entries + i)
          ≡ (if within b n i then chain_entry b n i else m (h.table.entries + i))
    pub zeroed :
        (a : ℕ)
        → within (h.start_address + b * heap_block_size) (n * heap_block_size) a ≡ true
        → m' a ≡ 0
    pub kept :
        (a : ℕ)
        → within h.table.entries h.table.total_entries a ≡ false
        → within (h.start_address + b * heap_block_size) (n * heap_block_size) a ≡ false
        → m' a ≡ m a

  pub data ReturnsBlocks (b n : ℕ) (m : Mem) : Option (ℕ × Mem) → Type 0 where
    returns :
        (m' : Mem)
        → Allocated b n m m'
        → ReturnsBlocks b n m (some (h.start_address + b * heap_block_size, m'))

  Marked-ReturnsBlocks :
      (b n : ℕ) (m : Mem) (r : Option Mem)
      → 0 < n
      → b + n ≤ h.table.total_entries
      → Marked b
          (b + n - 1)
          (store
            (memset (h.start_address + b * heap_block_size) 0 (n * heap_block_size) m)
            (h.table.entries + b)
            is_first)
          r
      → ReturnsBlocks b n m (Option.map (λ m'. (h.start_address + b * heap_block_size, m')) r)
  Marked-ReturnsBlocks b n m r pos inside (marked m' holds) =
      let data_start = h.start_address + b * heap_block_size in
      let size = n * heap_block_size in
      returns m' (record {
        entries = λ i lt. ground (
          arith,
          holds (h.table.entries + i),
          memset_lem data_start 0 size m (h.table.entries + i) (omega arith),
        );
        zeroed = λ a w. ground (arith, holds a, memset_lem data_start 0 size m a (omega arith));
        kept = λ a w v. ground (arith, holds a, memset_lem data_start 0 size m a (omega arith));
      })

  pub allocate_from-ReturnsBlocks :
      (b n : ℕ) (m : Mem)
      → 0 < n
      → b + n ≤ h.table.total_entries
      → ReturnsBlocks b n m (allocate_from h (n * heap_block_size) b m)
  unfolding allocate_from block_idx_2_block_address
  allocate_from-ReturnsBlocks b n m pos inside =
      let data_start : ℕ = h.start_address + b * heap_block_size in
      let start_eq : add32 h.start_address (mul32 b heap_block_size) ≡ data_start = omega arith in
      let num_eq : n * heap_block_size / heap_block_size ≡ n = omega arith in
      let final_eq : sub32 (add32 b n) 1 ≡ b + n - 1 = omega arith in
      let entry_eq : entry_address h b ≡ h.table.entries + b = omega arith in
      rw (start_eq, num_eq, final_eq, entry_eq)
        (Marked-ReturnsBlocks b n m _ pos inside
          (mark_loop-Marked (n + 1) b (b + n - 1) _ (omega arith) (omega arith) (omega arith)))

  -- The loop of `heap_free` sets a chain of `n` entries free, and stops at its end.
  pub free_loop_lem :
      (k b n : ℕ) (m : Mem) (a : ℕ)
      → 0 < n
      → n ≤ k
      → b + k ≤ h.table.total_entries
      → ((i : ℕ) → b ≤ i → i < b + n → m (h.table.entries + i) ≡ chain_entry b n i)
      → free_loop k h b m a ≡ (if within (h.table.entries + b) n a then 0x00 else m a)
  unfolding free_loop
  free_loop_lem zero b n m a pos le inside chain = absurd (omega arith)
  free_loop_lem (suc k) b n m a pos le inside chain =
      let here : entry_address h b ≡ h.table.entries + b = omega arith in
      elim (dec_lt 1 n) [
        | yes more ↦
            let linked : m (h.table.entries + b) ≡ 0x81 = ground (arith, chain b) in
            let m' = store m (h.table.entries + b) 0x00 in
            let rest =
              free_loop_lem k (b + 1) (n - 1) m' a (omega arith) (omega arith) (omega arith)
                λ i p q. ground (arith, chain i) in
            rw (here, linked) (ground (arith, rest))
        | no last ↦
            let end : m (h.table.entries + b) ≡ 0x01 = ground (arith, chain b) in
            rw (here, end) (ground arith)
      ]
