-- ===== src/Arch/Paging/Map.antt =====
-- What the two `paging_map` functions map.
use n00b_os.Prelude.{
  ℕ, zero, suc, ◌+◌, ◌-◌, ◌*◌, ◌/◌, ◌%◌, ◌^◌, ◌<◌, ◌≤◌, ◌≡◌, refl, true, arith, ◌==◌, if◌then◌else◌,
  ltb, leb, ◌&&◌, add32, sub32, sdiv, Bool, shift_left, sdiv_small, rounds_small, bit_or,
  bit_or_field, le→ltb,
}
use n00b_os.Arch.Paging.{Words, map_loop, paging_map}
use n00b_os.Arch.Paging.Walk.{pte, IsDirectory, paging_set_lem}

-- The page of `vb` is one of the `n` pages from `va` on.
abbrev pub in_pages : ℕ → ℕ → ℕ → Bool
in_pages va n vb = leb (va / 4096) (vb / 4096) && ltb (vb / 4096) (va / 4096 + n)

-- The entries when the `n` pages from `va` on lead to those from `pa` on, and the others are `old`.
abbrev pub mapped : ℕ → ℕ → ℕ → ℕ → (ℕ → ℕ) → ℕ → ℕ
mapped va pa n flags old vb =
    if in_pages va n vb then pa + (vb / 4096 - va / 4096) * 4096 + flags else old vb

or_flags : (pa flags : ℕ) → pa % 4096 ≡ 0 → flags < 4096 → bit_or pa flags ≡ pa + flags
or_flags pa flags ok small =
    let page : shift_left 12 (pa / 4096) ≡ pa = omega arith in
    rw page at (bit_or_field 12 (pa / 4096) flags (omega arith))

-- Mapping one page and then the others.
mapped-cons :
    (va pa k flags vb : ℕ) (old : ℕ → ℕ)
    → mapped
        (va + 4096)
        (pa + 4096)
        k
        flags
        (λ b. if b / 4096 == va / 4096 then pa + flags else old b)
        vb
      ≡ mapped va pa (suc k) flags old vb
mapped-cons va pa k flags vb old = ground arith

module _ (directory flags : ℕ) (few : flags < 4096) where
  -- For aligned addresses and regions below the end of the address space, `map_loop` over `n` pages
  -- succeeds and keeps the directory well formed. Behind it the entry of page i of the region is
  -- page i of the physical region with the flags, and every other entry is what it was.
  pub map_loop_lem :
      (n va pa : ℕ) {w : Words} (vb : ℕ)
      → IsDirectory w directory
      → va % 4096 ≡ 0
      → pa % 4096 ≡ 0
      → va + n * 4096 < 2 ^ 32
      → pa + n * 4096 < 2 ^ 32
      → vb < 2 ^ 32
      → let (result, w') = map_loop n directory va pa flags w in
        (result ≡ 0)
        × IsDirectory w' directory
        × (pte w' directory vb ≡ mapped va pa n flags (pte w directory) vb)
  unfolding map_loop
  map_loop_lem zero va pa vb d va_ok pa_ok va_in pa_in hb = (refl, d, ground arith)
  map_loop_lem (suc k) va pa {w} vb d va_ok pa_ok va_in pa_in hb =
      let entry = or_flags pa flags pa_ok few in
      let next_va : add32 va 4096 ≡ va + 4096 = omega arith in
      let next_pa : add32 pa 4096 ≡ pa + 4096 = omega arith in
      let (sets, d', holds) =
        paging_set_lem d va vb (pa + flags) va_ok (omega arith) hb (omega arith) in
      let (rest, d'', maps) =
        map_loop_lem k (va + 4096) (pa + 4096) vb d' (omega arith) (omega arith) (omega arith)
          (omega arith) hb in
      rw (entry, next_va, next_pa, sets)
        (rest, d'', ground (arith, maps, holds, mapped-cons va pa k flags vb (pte w directory)))

  -- `paging_map` of an aligned region maps only its first quarter: it counts the region in 4-byte
  -- entries where it means bytes. The entries behind the first quarter of the pages, and all
  -- outside the region, are what they were. The result is 0.
  pub paging_map_quarter :
      (va pa end : ℕ) {w : Words} (vb : ℕ)
      → IsDirectory w directory
      → va % 4096 ≡ 0
      → pa % 4096 ≡ 0
      → end % 4096 ≡ 0
      → pa ≤ end
      → end < 2 ^ 31
      → va + (end - pa) < 2 ^ 32
      → vb < 2 ^ 32
      → let (result, w') = paging_map directory va pa end flags w in
        (result ≡ 0)
        × (pte w' directory vb ≡ mapped va pa ((end - pa) / 4096 / 4) flags (pte w directory) vb)
  unfolding paging_map
  paging_map_quarter va pa end vb d va_ok pa_ok end_ok le small room hb =
      let pages = (end - pa) / 4096 / 4 in
      let bytes : sub32 end pa ≡ end - pa = omega arith in
      let quarter : (end - pa) / 4 / 4096 ≡ pages = omega arith in
      let count : sdiv (sub32 end pa) 4 / 4096 ≡ pages =
        rw (bytes, sdiv_small (end - pa) 4 (omega arith)) quarter in
      let all = map_loop_lem pages va pa vb d va_ok pa_ok (omega arith) (omega arith) hb in
      let at_va : (va % 4096 == 0) ≡ true = ground arith in
      let at_pa : (pa % 4096 == 0) ≡ true = ground arith in
      let at_end : (end % 4096 == 0) ≡ true = ground arith in
      rw (at_va, at_pa, at_end, le→ltb end pa le, count, rounds_small pages (omega arith))
        (all.0, all.2)
