-- ===== src/Tests/Paging.antt =====
-- kernel/arch/i386/paging with a directory at 0 whose table i lies at page i + 1.
use n00b_os.Prelude.{
  ℕ, ◌+◌, ◌*◌, ◌/◌, ◌%◌, ◌<◌, ◌≤◌, ◌≡◌, refl, arith, ◌==◌, if◌then◌else◌, ltb, neg32, ◌∙◌,
}
use n00b_os.Arch.Paging.{Words, paging_set, paging_map, paging_align, table_of, directory_slot}
use n00b_os.Arch.Paging.Walk.{pte, IsDirectory, paging_set_lem, masked}
use n00b_os.Arch.Paging.Map.{mapped, paging_map_quarter}
use n00b_os.Arch.Paging.Align.{paging_align_unaligned, paging_map-paging_align}

-- The 1024 entries of the directory; all other words are 0.
abbrev tables : Words
tables a = if ltb a 4096 then (a / 4 + 1) * 4096 else 0

tables-table_of : (i : ℕ) → i < 1024 → table_of tables 0 i ≡ (i + 1) * 4096
unfolding table_of
tables-table_of i lt =
    let v : tables (directory_slot 0 i) ≡ (i + 1) * 4096 = ground arith in
    rw v (masked ((i + 1) * 4096) (omega arith) ∙ omega arith)

tables-IsDirectory : IsDirectory tables 0
tables-IsDirectory = record {
  aligned = refl;
  small = omega arith;
  words = λ a. ground arith;
  apart = λ i lt e. omega (arith, tables-table_of i lt);
  distinct = λ i j hi hj ne e. omega (arith, tables-table_of i hi, tables-table_of j hj);
}

paging_set_lem_example :
    let (result, w') = paging_set 0 0x400000 0x12345007 tables in
    (result ≡ 0)
    × IsDirectory w' 0
    × (pte w' 0 0x400123 ≡ (if ◌==◌ 1024 1024 then 0x12345007 else pte tables 0 0x400123))
paging_set_lem_example =
    paging_set_lem tables-IsDirectory 0x400000 0x400123 0x12345007 refl (omega arith) (omega arith)
      (omega arith)

-- A region of 8 pages: 2 are mapped.
paging_map_quarter_example :
    let (result, w') = paging_map 0 0x400000 0x8000 0x10000 7 tables in
    (result ≡ 0) × (pte w' 0 0x402000 ≡ mapped 0x400000 0x8000 2 7 (pte tables 0) 0x402000)
paging_map_quarter_example =
    paging_map_quarter 0 7 (omega arith) 0x400000 0x8000 0x10000 0x402000 tables-IsDirectory refl
      refl refl (omega arith) (omega arith) (omega arith) (omega arith)

aligns_too_far : paging_align 0x1001 ≡ 0x3001
unfolding paging_align
aligns_too_far = refl

paging_align_unaligned_example :
    (paging_align 0x1001 % 4096 ≡ 1)
    × (4096 ≤ 0x1001 → 0x1001 < 1073741824 → 0x2001 < paging_align 0x1001)
paging_align_unaligned_example = paging_align_unaligned 0x1001 (omega arith) (omega arith)

paging_map-paging_align_example :
    paging_map 0 0x400000 0x8000 (paging_align 0x9001) 7 tables ≡ (neg32 22, tables)
paging_map-paging_align_example =
    paging_map-paging_align 0 0x400000 0x8000 0x9001 7 tables refl refl (omega arith) (omega arith)
