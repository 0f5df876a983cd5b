-- ===== src/Heap/FirstFit/Search.antt =====
-- What the search of find_first_fit_strategy.cpp finds: the first run of free blocks that is long
-- enough.
use n00b_os.Prelude.{
  ℕ, zero, suc, ◌+◌, ◌-◌, ◌*◌, ◌^◌, ◌≤◌, ◌<◌, ◌≡◌, ◌⊎◌, inl, inr, true, false, arith, Bool-cases,
  lt→ltb, le→ltb, le→leb, lt→leb, Option, some, mul32, add32, neg32, dec_lt,
}
use n00b_os.Config.{heap_block_size, enomem}
use n00b_os.Libc.Memory.{Mem}
use n00b_os.Heap.{Heap}
use n00b_os.Heap.FirstFit.{is_free, count_contiguous, find_loop, find_first_fit_start_block}

module _ (h : Heap) (m : Mem) where
  -- The `n` blocks from `b` on are in the table and free.
  pub record FreeRun (b n : ℕ) : Type 0 where
    pub inside : b + n ≤ h.table.total_entries
    pub free : (i : ℕ) → i < n → is_free h m (b + i) ≡ true

  -- What the inner loop returns from `idx` on: a run, and what ended it.
  record Counted (k count idx : ℕ) (r : ℕ × ℕ) : Type 0 where
    grows : count ≤ r.0
    moved : r.1 + count ≡ idx + r.0
    bounded : r.1 ≤ idx + k
    free : (i : ℕ) → idx ≤ i → i < r.1 → is_free h m i ≡ true
    ended : (r.1 ≡ idx + k) ⊎ (is_free h m r.1 ≡ false)

  count_contiguous-Counted :
      (k count idx : ℕ) → Counted k count idx (count_contiguous k h m count idx)
  unfolding count_contiguous
  count_contiguous-Counted zero count idx = record {
    grows = omega arith;
    moved = omega arith;
    bounded = omega arith;
    free = λ i p q. absurd (omega arith);
    ended = inl (omega arith);
  }
  count_contiguous-Counted (suc k) count idx = elim (Bool-cases (is_free h m idx)) [
    | inl e ↦
        let c = count_contiguous-Counted k (count + 1) (idx + 1) in
        rw e (record {
          grows = omega arith;
          moved = omega arith;
          bounded = omega arith;
          free = λ i p q. elim (dec_lt idx i) [
            | yes lt ↦ c.free i (omega arith) q
            | no ge ↦ let same : i ≡ idx = omega arith in rw same e
          ];
          ended = elim c.ended [ inl end ↦ inl (omega arith) | inr stop ↦ inr stop ];
        })
    | inr e ↦ rw e (record {
      grows = omega arith;
      moved = omega arith;
      bounded = omega arith;
      free = λ i p q. absurd (omega arith);
      ended = inr e;
    })
  ]

  -- The result of the search for `n` blocks: the first run, or -ENOMEM and no run.
  pub data Found (n : ℕ) : Option ℕ → Type 0 where
    found : (b : ℕ) → FreeRun b n → ((j : ℕ) → j < b → ¬ FreeRun j n) → Found n (some b)
    no_memory : ((j : ℕ) → ¬ FreeRun j n) → Found n (some (neg32 enomem))

  -- No run of `n` blocks starts where the inner loop went through fewer.
  no_run_within :
      (n idx j : ℕ) (r : ℕ × ℕ)
      → idx ≤ h.table.total_entries
      → Counted (h.table.total_entries - idx) 0 idx r
      → r.0 < n
      → idx ≤ j
      → j ≤ r.1
      → ¬ FreeRun j n
  no_run_within n idx j r le c short lo hi run = elim c.ended [
    | inl end ↦ omega (arith, run.inside)
    | inr stop ↦
        let i = r.1 - j in
        let here : j + i ≡ r.1 = omega arith in
        let free : is_free h m r.1 ≡ true = rw here at (run.free i (omega arith)) in cc
  ]

  module _ (n : ℕ) (small : h.table.total_entries < 2 ^ 20) (pos : 0 < n) (fits : n < 2 ^ 20) where
    find_loop-Found :
        (fuel idx : ℕ)
        → 0 < fuel
        → h.table.total_entries + 1 ≤ fuel + idx
        → idx ≤ h.table.total_entries + 1
        → ((j : ℕ) → j < idx → ¬ FreeRun j n)
        → Found n (find_loop fuel h m (n * heap_block_size) idx)
    unfolding find_loop
    find_loop-Found zero idx some_fuel enough le none_before = absurd (omega arith)
    find_loop-Found (suc fuel) idx some_fuel enough le none_before =
        elim (dec_lt idx h.table.total_entries) [
          | yes lt ↦
              let k = h.table.total_entries - idx in
              let r = count_contiguous k h m 0 idx in
              let c : Counted k 0 idx r = count_contiguous-Counted k 0 idx in
              elim (dec_lt r.0 n) [
                | yes short ↦
                    rw
                      (
                        lt→ltb idx h.table.total_entries lt,
                        lt→leb (n * heap_block_size) (mul32 r.0 heap_block_size) (omega arith),
                      )
                      (find_loop-Found fuel (add32 r.1 1) (omega arith) (omega arith) (omega arith)
                        λ j before. elim (dec_lt j idx) [
                          | yes old ↦ none_before j old
                          | no new ↦
                              no_run_within n idx j r (omega arith) c short (omega arith)
                                (omega arith)
                        ])
                | no long ↦
                    rw
                      (
                        lt→ltb idx h.table.total_entries lt,
                        le→leb (n * heap_block_size) (mul32 r.0 heap_block_size) (omega arith),
                      )
                      (found idx
                        (record {
                          inside = omega arith;
                          free = λ i p. c.free (idx + i) (omega arith) (omega arith);
                        })
                        none_before)
              ]
          | no ge ↦
              rw (le→ltb idx h.table.total_entries (omega arith))
                (no_memory λ j run. none_before j (omega (arith, run.inside)) run)
        ]

    -- The search returns. It finds the lowest run of `n` free blocks, or reports -ENOMEM where the
    -- table has none.
    pub find_first_fit_start_block-Found :
        Found n (find_first_fit_start_block h m (n * heap_block_size))
    unfolding find_first_fit_start_block
    find_first_fit_start_block-Found =
        find_loop-Found (h.table.total_entries + 1) 0 (omega arith) (omega arith) (omega arith)
          λ j p. absurd (omega arith)
