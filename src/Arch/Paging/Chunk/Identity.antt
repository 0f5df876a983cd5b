-- ===== src/Arch/Paging/Chunk/Identity.antt =====
-- The page directory that `paging_new` of kernel/arch/i386/paging/paging.cpp makes.
use mathlib.Core.Option
use n00b_os.Prelude.{
  ℕ, zero, suc, ◌+◌, ◌*◌, ◌/◌, ◌%◌, ◌^◌, ◌<◌, ◌≤◌, ◌≡◌, ◌≢◌, ◌⊎◌, inl, inr, refl, sym, ap, ◌∙◌,
  false, ◌==◌, ==_refl, some, none, bit_and, bit_and-one, if◌then◌else◌, add32, mul32, bit_or,
  ℕ_discrete, arith,
}
use n00b_os.Disk.Streamer.{Allocator}
use n00b_os.Arch.Paging.{Words, store_word, table_of, directory_slot, is_present}
use n00b_os.Arch.Paging.Walk.{pte, translate, IsDirectory, masked}
use n00b_os.Arch.Paging.Chunk.{fill_table, fill_directory, paging_new}
use n00b_os.Arch.Paging.Chunk.Table.{
  page_entry, table_entry, table_entry_present, page_entry_present, page_entry_address,
  table_entry_lem, fill_table_lem, outside_page,
}

-- The heap serves the 1025 requests for a page and the one for the chunk, from state `s` on, and gives
-- out different pages of 4096 bytes.
pub record Pages (alloc : Allocator) (s : alloc.State) : Type 0 where
  pub states : ℕ → alloc.State
  pub pages : ℕ → ℕ
  pub chunk : ℕ
  pub rest : alloc.State
  pub starts : states 0 ≡ s
  pub served : (i : ℕ) → i ≤ 1024 → alloc.kzalloc 4096 (states i) ≡ some (pages i, states (i + 1))
  pub chunk_served : alloc.kzalloc 4 (states 1025) ≡ some (chunk, rest)
  pub aligned : (i : ℕ) → i ≤ 1024 → pages i % 4096 ≡ 0
  pub in_memory : (i : ℕ) → i ≤ 1024 → pages i + 4096 ≤ 2 ^ 32
  pub distinct : (i j : ℕ) → i ≤ 1024 → j ≤ 1024 → i ≢ j → pages i ≢ pages j

module _ (alloc : Allocator) (s : alloc.State) (given : Pages alloc s) (flags : ℕ)
    (few : flags < 4096) where
  open given use {states, pages, served, aligned, in_memory, distinct}

  -- The directory's entries and tables from `i` on, `k` of them; nothing else has changed.
  record Filled (i k : ℕ) (w w' : Words) : Type 0 where
    entries : (j : ℕ) → i ≤ j → j < i + k → w' (pages 0 + 4 * j) ≡ table_entry flags (pages (j + 1))
    tables :
        (j t : ℕ)
        → i ≤ j
        → j < i + k
        → t < 1024
        → w' (pages (j + 1) + 4 * t) ≡ page_entry flags (j * 1024 + t)
    others :
        (a : ℕ)
        → (a < pages 0 + 4 * i) ⊎ (pages 0 + 4096 ≤ a)
        → ((j : ℕ) → i ≤ j → j < i + k → (a < pages (j + 1)) ⊎ (pages (j + 1) + 4096 ≤ a))
        → w' a ≡ w a
    words : (a : ℕ) → w' a < 2 ^ 32

  -- The words behind one round.
  abbrev filled_once : ℕ → Words → Words
  filled_once i w =
      store_word (fill_table 1024 0 (pages (i + 1)) (i * 1024 * 4096) flags w) (pages 0 + 4 * i)
        (table_entry flags (pages (i + 1)))

  fill_directory-suc :
      (k i : ℕ) (w : Words)
      → i < 1024
      → fill_directory alloc (suc k) i (pages 0) (i * 1024 * 4096 % 2 ^ 32) flags w (states (i + 1))
        ≡ fill_directory alloc k
            (i + 1)
            (pages 0)
            ((i + 1) * 1024 * 4096 % 2 ^ 32)
            flags
            (filled_once i w)
            (states (i + 1 + 1))
  unfolding fill_directory Option.bind
  fill_directory-suc k i w lt =
      let room = in_memory 0 (omega arith) in
      let next : add32 (i * 1024 * 4096 % 2 ^ 32) (1024 * 4096) ≡ (i + 1) * 1024 * 4096 % 2 ^ 32 =
        omega arith in
      let slot : add32 (pages 0) (mul32 4 i) ≡ pages 0 + 4 * i = omega (arith, room) in
      let fits : i * 1024 * 4096 % 2 ^ 32 ≡ i * 1024 * 4096 = omega arith in
      rw (served (i + 1) (omega arith), next, slot, fits) refl

  -- Where a round writes.
  filled_once_lem :
      (i : ℕ) (w : Words) → i < 1024 → ((a : ℕ) → w a < 2 ^ 32) → Filled i 1 w (filled_once i w)
  filled_once_lem i w lt words =
      let table = pages (i + 1) in
      let slot = pages 0 + 4 * i in
      let aligned_table = aligned (i + 1) (omega arith) in
      let room = in_memory (i + 1) (omega arith) in
      let (inside, outside, words1) =
        fill_table_lem 1024 0 table (i * 1024) flags w room (omega arith) (omega arith) few words in
      let small = (table_entry_lem flags table few aligned_table (omega arith)).1 in
      let apart =
        outside_page (pages 0) table slot (aligned 0 (omega arith)) aligned_table
          (distinct 0 (i + 1) (omega arith) (omega arith) (omega arith)) (omega arith)
          (omega arith) in
      record {
        entries = λ j le lt'. let same : j ≡ i = omega arith in rw (same, ==_refl slot) refl;
        tables = λ j t le lt' few_t.
            let same : j ≡ i = omega arith in
            let off : (table + 4 * t == slot) ≡ false = ground (arith, apart) in
            rw (same, off) (inside t (omega arith) few_t);
        others = λ a out free.
            let off : (a == slot) ≡ false = ground (arith, out) in
            rw off (outside a (ground (arith, free i (omega arith) (omega arith))));
        words = λ a. ground (arith, words1 a, small);
      }

  Filled-append :
      (i k : ℕ) (w w1 w' : Words)
      → i + suc k ≤ 1024
      → Filled i 1 w w1
      → Filled (i + 1) k w1 w'
      → Filled i (suc k) w w'
  Filled-append i k w w1 w' short first rest =
      let table_page = aligned (i + 1) (omega arith) in
      let in_directory : (a : ℕ)
          → pages (i + 1) ≤ a
          → a < pages (i + 1) + 4096
          → (a < pages 0 + 4 * (i + 1)) ⊎ (pages 0 + 4096 ≤ a) =
        λ a le lt.
          elim (outside_page (pages (i + 1)) (pages 0) a table_page (aligned 0 (omega arith))
            (distinct (i + 1) 0 (omega arith) (omega arith) (omega arith)) le lt) [
              | inl below ↦ inl (omega arith)
              | inr above ↦ inr above
            ] in
      let place : (a : ℕ) → pages (i + 1) ≤ a → a < pages (i + 1) + 4096 → w' a ≡ w1 a = λ a le lt.
        rest.others a (in_directory a le lt) (λ j le' lt'.
          outside_page (pages (i + 1)) (pages (j + 1)) a (aligned (i + 1) (omega arith))
            (aligned (j + 1) (omega arith))
            (distinct (i + 1) (j + 1) (omega arith) (omega arith) (omega arith)) le lt) in
      record {
        entries = λ j le lt. elim (ℕ_discrete j i) [
          | yes e ↦ rw e (
              rest.others (pages 0 + 4 * i) (inl (omega arith)) (λ l le' lt'.
                outside_page (pages 0) (pages (l + 1)) (pages 0 + 4 * i) (aligned 0 (omega arith))
                  (aligned (l + 1) (omega arith))
                  (distinct 0 (l + 1) (omega arith) (omega arith) (omega arith)) (omega arith)
                  (omega arith))
              ∙ first.entries i (omega arith) (omega arith))
          | no ne ↦ rest.entries j (omega arith) (omega arith)
        ];
        tables = λ j t le lt few_t. elim (ℕ_discrete j i) [
          | yes e ↦ rw e (
              place (pages (i + 1) + 4 * t) (omega arith) (omega arith)
              ∙ first.tables i t (omega arith) (omega arith) few_t)
          | no ne ↦ rest.tables j t (omega arith) (omega arith) few_t
        ];
        others = λ a out free.
            rest.others a (ground (arith, out)) (λ j le lt. free j (omega arith) (omega arith))
            ∙ first.others a out (λ j le lt. free j (omega arith) (omega arith));
        words = rest.words;
      }

  fill_directory-zero :
      (i : ℕ) (w : Words)
      → fill_directory alloc 0 i (pages 0) (i * 1024 * 4096 % 2 ^ 32) flags w (states (i + 1))
        ≡ some (w, states (i + 1))
  unfolding fill_directory
  fill_directory-zero i w = refl

  fill_directory_lem :
      (k i : ℕ) (w : Words)
      → i + k ≤ 1024
      → ((a : ℕ) → w a < 2 ^ 32)
      → (w' : Words) × (fill_directory alloc k i
            (pages 0)
            (i * 1024 * 4096 % 2 ^ 32)
            flags
            w
            (states (i + 1))
          ≡ some (w', states (i + k + 1)))
        × Filled i k w w'
  fill_directory_lem zero i w short words =
      let same : i + 0 ≡ i = omega arith in
      (
        w,
        rw same (fill_directory-zero i w),
        record {
          entries = λ j le lt. absurd (omega arith);
          tables = λ j t le lt small. absurd (omega arith);
          others = λ a out apart. refl;
          words = words;
        },
      )
  fill_directory_lem (suc k) i w short words =
      let once = filled_once_lem i w (omega arith) words in
      let (w', fills, rest) =
        fill_directory_lem k (i + 1) (filled_once i w) (omega arith) once.words in
      let moved : i + 1 + k + 1 ≡ i + suc k + 1 = omega arith in
      (
        w',
        fill_directory-suc k i w (omega arith) ∙ rw moved at fills,
        Filled-append i k w (filled_once i w) w' (omega arith) once rest,
      )

  module _ (w w' : Words) (filled : Filled 0 1024 w w') where
    table_of-pages : (i : ℕ) → i < 1024 → table_of w' (pages 0) i ≡ pages (i + 1)
    unfolding table_of
    table_of-pages i lt =
        let room = in_memory 0 (omega arith) in
        let room_table = in_memory (i + 1) (omega arith) in
        let slot : directory_slot (pages 0) i ≡ pages 0 + 4 * i = omega (arith, room) in
        let (whole, small) =
          table_entry_lem flags (pages (i + 1)) few (aligned (i + 1) (omega arith))
            (omega (arith, room_table)) in
        rw (slot, filled.entries i (omega arith) (omega arith))
          (masked (table_entry flags (pages (i + 1))) small ∙ whole)

    Filled-IsDirectory : IsDirectory w' (pages 0)
    Filled-IsDirectory = record {
      aligned = aligned 0 (omega arith);
      small = omega (arith, in_memory 0 (omega arith));
      words = filled.words;
      apart = λ i lt.
          rw (table_of-pages i lt) (distinct (i + 1) 0 (omega arith) (omega arith) (omega arith));
      distinct = λ i j lt lt' ne.
          rw (table_of-pages i lt, table_of-pages j lt')
            (distinct (i + 1) (j + 1) (omega arith) (omega arith) (omega (arith, ne)));
    }

    Filled-pte : (va : ℕ) → va < 2 ^ 32 → pte w' (pages 0) va ≡ bit_or (va / 4096 * 4096) flags
    unfolding pte
    Filled-pte va small =
        let i = va / 2 ^ 22 in
        let t = va % 2 ^ 22 / 4096 in
        let table = pages (i + 1) in
        let room = in_memory (i + 1) (omega arith) in
        let slot : add32 table (mul32 4 t) ≡ table + 4 * t = omega (arith, room) in
        let page : i * 1024 + t ≡ va / 4096 = omega arith in
        rw (table_of-pages i (omega arith), slot)
          (filled.tables i t (omega arith) (omega arith) (omega arith)
            ∙ ap (λ n. bit_or (n * 4096) flags) page)

    -- Both entries of a page are present exactly if the flags say so.
    Filled-translate :
        (va : ℕ)
        → va < 2 ^ 32
        → translate w' (pages 0) va ≡ (if bit_and flags is_present == 0 then none else some va)
    unfolding translate
    Filled-translate va small =
        let i = va / 2 ^ 22 in
        let room = in_memory 0 (omega arith) in
        let slot : directory_slot (pages 0) i ≡ pages 0 + 4 * i = omega (arith, room) in
        let present = bit_and-one flags in
        let in_directory =
          ap (λ e. bit_and e is_present) (ap w' slot ∙ filled.entries i (omega arith) (omega arith))
          ∙ table_entry_present flags (pages (i + 1)) (aligned (i + 1) (omega arith)) in
        let in_table = page_entry_present flags (va / 4096) in
        let address = page_entry_address flags (va / 4096) few (omega arith) in
        rw (in_directory, Filled-pte va small, in_table, address, present) (ground arith)

  -- `paging_new` makes a well-formed directory in which the entry of every page of the 32-bit address
  -- space is the page's own address with the flags, and so, if these flags have the present bit, the
  -- processor finds every address at itself, and without the bit none. For a heap that serves the
  -- requests with different pages, flags below 4096, and a memory of 32-bit words.
  pub paging_new-IsDirectory :
      (w : Words)
      → ((a : ℕ) → w a < 2 ^ 32)
      → (w' : Words) × (paging_new alloc flags w s
          ≡ some (given.chunk, record { directory_entry = pages 0 }, w', given.rest))
        × IsDirectory w' (pages 0)
        × ((va : ℕ) → va < 2 ^ 32 → pte w' (pages 0) va ≡ bit_or (va / 4096 * 4096) flags)
        × ((va : ℕ)
            → va < 2 ^ 32
            → translate w' (pages 0) va ≡ (if bit_and flags is_present == 0 then none else some va))
  unfolding paging_new Option.bind
  paging_new-IsDirectory w words =
      let (w', fills, filled) = fill_directory_lem 1024 0 w (omega arith) words in
      (
        w',
        rw (sym given.starts, served 0 (omega arith), fills, given.chunk_served) refl,
        Filled-IsDirectory w w' filled,
        Filled-pte w w' filled,
        Filled-translate w w' filled,
      )
