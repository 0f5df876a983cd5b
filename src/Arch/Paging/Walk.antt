-- ===== src/Arch/Paging/Walk.antt =====
-- How the processor finds a page and its entry, and what `paging_set` does to what it finds.
use n00b_os.Prelude.{
  ℕ, ◌*◌, ◌+◌, Option, none, some, ◌/◌, ◌%◌, ◌^◌, ◌<◌, ◌≡◌, ◌≢◌, refl, true, false, arith, ◌==◌,
  if◌then◌else◌, add32, mul32, bit_and, bit_and_high, bit_and-ones, ones, shift_left, shift_right,
  ap, ◌∙◌, ℕ_discrete,
}
use n00b_os.Arch.Paging.{
  Words, store_word, address_mask, table_of, directory_slot, paging_set, is_present,
}

-- The page table entry that the directory leads to for a virtual address, present or not.
unfoldable pub pte : Words → ℕ → ℕ → ℕ
pte w directory va = w (add32 (table_of w directory (va / 2 ^ 22)) (mul32 4 (va % 2 ^ 22 / 4096)))

-- The physical address that the processor finds for a virtual one; `none` is a page fault, since the
-- entry of the directory or the one of its table is not present.
unfoldable pub translate : Words → ℕ → ℕ → Option ℕ
unfolding pte
translate w directory va =
    if bit_and (w (directory_slot directory (va / 2 ^ 22))) is_present == 0
    then none
    else if bit_and (pte w directory va) is_present == 0
    then none
    else some (bit_and (pte w directory va) address_mask + va % 4096)

-- A directory on a page of its own, whose entries lead to 1024 different pages, each a table.
pub record IsDirectory (w : Words) (directory : ℕ) : Type 0 where
  pub aligned : directory % 4096 ≡ 0
  pub small : directory < 2 ^ 32
  pub words : (a : ℕ) → w a < 2 ^ 32
  pub apart : (i : ℕ) → i < 1024 → table_of w directory i ≢ directory
  pub distinct :
      (i j : ℕ) → i < 1024 → j < 1024 → i ≢ j → table_of w directory i ≢ table_of w directory j

-- The mask leaves the address of a page.
pub masked : (x : ℕ) → x < 2 ^ 32 → bit_and x address_mask ≡ x / 4096 * 4096
masked x small =
    let high : shift_right 12 x ≡ x / 4096 = omega arith in
    let kept : bit_and (shift_right 12 x) (ones 20) ≡ x / 4096 =
      rw high (bit_and-ones 20 (x / 4096) (omega arith)) in
    bit_and_high 12 x (ones 20) ∙ ap (shift_left 12) kept ∙ omega arith

table_of-congr :
    (w w' : Words) (directory i : ℕ)
    → w' (directory_slot directory i) ≡ w (directory_slot directory i)
    → table_of w' directory i ≡ table_of w directory i
unfolding table_of
table_of-congr w w' directory i e = rw e

table_of-page :
    {w : Words} {directory : ℕ} (i : ℕ)
    → IsDirectory w directory
    → (table_of w directory i % 4096 ≡ 0) × (table_of w directory i < 2 ^ 32)
unfolding table_of
table_of-page {w} {directory} i d =
    let a = directory_slot directory i in
    let e = masked (w a) (d.words a) in let s = d.words a in rw e (omega arith, omega arith)

module _ {w : Words} {directory : ℕ} (d : IsDirectory w directory) where
  -- A write into a table leaves every entry of the directory.
  table_of-store_word :
      (i j k value : ℕ)
      → i < 1024
      → j < 1024
      → k < 1024
      → table_of (store_word w (add32 (table_of w directory i) (mul32 4 k)) value) directory j
        ≡ table_of w directory j
  table_of-store_word i j k value hi hj hk =
      let page = table_of-page i d in
      let t = table_of w directory i in
      let off : (directory_slot directory j == add32 t (mul32 4 k)) ≡ false =
        ground (arith, page, d.apart i hi, d.aligned, d.small) in
      table_of-congr w (store_word w (add32 t (mul32 4 k)) value) directory j (rw off)

  IsDirectory-store_word :
      (i k value : ℕ)
      → i < 1024
      → k < 1024
      → value < 2 ^ 32
      → IsDirectory (store_word w (add32 (table_of w directory i) (mul32 4 k)) value) directory
  IsDirectory-store_word i k value hi hk hv =
      let kept = λ (j : ℕ) (hj : j < 1024). table_of-store_word i j k value hi hj hk in
      record {
        aligned = d.aligned;
        small = d.small;
        words = λ a. ground (arith, d.words a);
        apart = λ j hj. rw (kept j hj) (d.apart j hj);
        distinct = λ j l hj hl ne. rw (kept j hj, kept l hl) (d.distinct j l hj hl ne);
      }

  -- Two addresses have the same slot exactly when they lie in the same page.
  same_slot :
      (va vb : ℕ)
      → va < 2 ^ 32
      → vb < 2 ^ 32
      → (add32 (table_of w directory (vb / 2 ^ 22)) (mul32 4 (vb % 2 ^ 22 / 4096))
          == add32 (table_of w directory (va / 2 ^ 22)) (mul32 4 (va % 2 ^ 22 / 4096)))
        ≡ (vb / 4096 == va / 4096)
  same_slot va vb ha hb = elim (ℕ_discrete (vb / 2 ^ 22) (va / 2 ^ 22)) [
    | yes e ↦ rw e (ground (arith, table_of-page (va / 2 ^ 22) d))
    | no ne ↦
        let apart = d.distinct (vb / 2 ^ 22) (va / 2 ^ 22) (omega arith) (omega arith) ne in
        ground (arith, table_of-page (va / 2 ^ 22) d, table_of-page (vb / 2 ^ 22) d)
  ]

  -- For a page-aligned address of a well-formed directory `paging_set` succeeds: the entry of that
  -- page is the new value, the entry of every other page is what it was, and the directory stays
  -- well formed.
  pub paging_set_lem :
      (va vb value : ℕ)
      → va % 4096 ≡ 0
      → va < 2 ^ 32
      → vb < 2 ^ 32
      → value < 2 ^ 32
      → let (result, w') = paging_set directory va value w in
        (result ≡ 0)
        × IsDirectory w' directory
        × (pte w' directory vb ≡ (if vb / 4096 == va / 4096 then value else pte w directory vb))
  unfolding paging_set pte
  paging_set_lem va vb value ok ha hb hv =
      let i = va / 2 ^ 22 in
      let k = va % 2 ^ 22 / 4096 in
      let j = vb / 2 ^ 22 in
      let kept = table_of-store_word i j k value (omega arith) (omega arith) (omega arith) in
      let aligned : (va % 4096 == 0) ≡ true = ground arith in
      rw aligned (
        refl,
        IsDirectory-store_word i k value (omega arith) (omega arith) hv,
        rw kept (ap (λ b. if b then value else pte w directory vb) (same_slot va vb ha hb)),
      )
