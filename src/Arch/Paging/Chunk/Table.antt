-- ===== src/Arch/Paging/Chunk/Table.antt =====
-- The page tables that `paging_new` of kernel/arch/i386/paging/paging.cpp fills.
use n00b_os.Prelude.{
  ℕ, zero, suc, ◌+◌, ◌*◌, ◌/◌, ◌%◌, ◌^◌, ◌<◌, ◌≤◌, ◌≡◌, ◌≢◌, ◌⊎◌, inl, inr, refl, ap, ◌∙◌, ==_refl,
  add32, mul32, bit_or, bit_or_field, bit_or_low, bit_and, bit_and-one, bit_or_parity, ℕ_discrete,
  dec_lt, arith,
}
use n00b_os.Arch.Paging.{Words, store_word, is_present, address_mask}
use n00b_os.Arch.Paging.Walk.{masked}
use n00b_os.Arch.Paging.Chunk.{fill_table}

-- The entry of page `v`, and the directory's entry for a table.
abbrev pub page_entry : ℕ → ℕ → ℕ
page_entry flags v = bit_or (v * 4096) flags

abbrev pub table_entry : ℕ → ℕ → ℕ
table_entry flags table = bit_or (bit_or table flags) 0b10

pub page_entry_small : (flags v : ℕ) → flags < 4096 → v < 2 ^ 20 → page_entry flags v < 2 ^ 32
page_entry_small flags v few small =
    let sum : bit_or (v * 4096) flags ≡ v * 4096 + flags =
      ap (λ n. bit_or n flags) (omega arith) ∙ bit_or_field 12 v flags few ∙ omega arith in
    omega (arith, sum)

-- The processor finds an entry present exactly if the flags say so, and the page in it.
pub table_entry_present :
    (flags table : ℕ) → table % 4096 ≡ 0 → bit_and (table_entry flags table) is_present ≡ flags % 2
table_entry_present flags table aligned =
    bit_and-one (table_entry flags table)
    ∙ omega (arith, bit_or_parity table flags, bit_or_parity (bit_or table flags) 2)

pub page_entry_present : (flags v : ℕ) → bit_and (page_entry flags v) is_present ≡ flags % 2
page_entry_present flags v =
    bit_and-one (page_entry flags v) ∙ omega (arith, bit_or_parity (v * 4096) flags)

pub page_entry_address :
    (flags v : ℕ) → flags < 4096 → v < 2 ^ 20 → bit_and (page_entry flags v) address_mask ≡ v * 4096
page_entry_address flags v few small =
    let sum : page_entry flags v ≡ v * 4096 + flags =
      ap (λ n. bit_or n flags) (omega arith) ∙ bit_or_field 12 v flags few ∙ omega arith in
    masked (page_entry flags v) (page_entry_small flags v few small) ∙ omega (arith, sum)

pub table_entry_lem :
    (flags table : ℕ)
    → flags < 4096
    → table % 4096 ≡ 0
    → table < 2 ^ 32
    → (table_entry flags table / 4096 * 4096 ≡ table) × (table_entry flags table < 2 ^ 32)
table_entry_lem flags table few aligned small =
    let q = table / 4096 in
    let sum : bit_or table flags ≡ q * 4096 + flags =
      ap (λ n. bit_or n flags) (omega arith) ∙ bit_or_field 12 q flags few ∙ omega arith in
    let (joins, bounded) = bit_or_low 12 q flags 2 few (omega arith) in
    let all : table_entry flags table ≡ q * 4096 + bit_or flags 2 =
      ap (λ n. bit_or n 2) (sum ∙ omega arith) ∙ joins ∙ omega arith in
    rw all (omega (arith, bounded), omega (arith, bounded))

-- One table: its entries from `idx` on are those of the pages from `first` on.
pub fill_table_lem :
    (k idx table first flags : ℕ) (w : Words)
    → table + 4096 ≤ 2 ^ 32
    → idx + k ≤ 1024
    → first + 1024 ≤ 2 ^ 20
    → flags < 4096
    → ((a : ℕ) → w a < 2 ^ 32)
    → ((t : ℕ)
        → idx ≤ t
        → t < idx + k
        → fill_table k idx table (first * 4096) flags w (table + 4 * t)
          ≡ page_entry flags (first + t))
      × ((a : ℕ)
          → (a < table + 4 * idx) ⊎ (table + 4096 ≤ a)
          → fill_table k idx table (first * 4096) flags w a ≡ w a)
      × ((a : ℕ) → fill_table k idx table (first * 4096) flags w a < 2 ^ 32)
unfolding fill_table
fill_table_lem zero idx table first flags w fits short below few words =
    (λ t le lt. absurd (omega arith), (λ a out. refl), words)
fill_table_lem (suc k) idx table first flags w fits short below few words =
    let slot : add32 table (mul32 4 idx) ≡ table + 4 * idx = omega arith in
    let address : add32 (first * 4096) (mul32 idx 4096) ≡ (first + idx) * 4096 = omega arith in
    let entry = page_entry flags (first + idx) in
    let w1 = store_word w (table + 4 * idx) entry in
    let small = page_entry_small flags (first + idx) few (omega arith) in
    let (inside, outside, words') =
      fill_table_lem k (idx + 1) table first flags w1 fits (omega arith) below few
        (λ a. ground (arith, words a, small)) in
    rw (slot, address)
      (
        (λ t le lt. elim (ℕ_discrete t idx) [
          | yes e ↦
              rw e (
                outside (table + 4 * idx) (inl (omega arith)) ∙ rw (==_refl (table + 4 * idx)) refl)
          | no ne ↦ inside t (omega arith) (omega arith)
        ]),
        (λ a out. outside a (ground (arith, out)) ∙ ground (arith, out)),
        words',
      )

-- A place in a page lies outside of every other page.
pub outside_page :
    (p q a : ℕ)
    → p % 4096 ≡ 0
    → q % 4096 ≡ 0
    → p ≢ q
    → p ≤ a
    → a < p + 4096
    → (a < q) ⊎ (q + 4096 ≤ a)
outside_page p q a aligned_p aligned_q apart le lt = elim (dec_lt a q) [
  | yes below ↦ inl below
  | no above ↦ inr (omega (arith, apart))
]
