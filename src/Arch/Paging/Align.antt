-- ===== src/Arch/Paging/Align.antt =====
-- What `paging_align` returns.
use n00b_os.Prelude.{ℕ, ◌+◌, ◌%◌, ◌^◌, ◌<◌, ◌≤◌, ◌≡◌, ◌≢◌, arith, neg32}
use n00b_os.Config.{einval}
use n00b_os.Arch.Paging.{Words, paging_align, paging_map}

-- Off a page boundary `paging_align` adds the rounded address to the address itself: the result is
-- as far off a page boundary as the address was, and from 4096 up to 2 ^ 30 it lies more than a
-- page above it.
pub paging_align_unaligned :
    (address : ℕ)
    → address % 4096 ≢ 0
    → address < 2 ^ 32
    → (paging_align address % 4096 ≡ address % 4096)
      × (4096 ≤ address → address < 2 ^ 30 → address + 4096 < paging_align address)
unfolding paging_align
paging_align_unaligned address off small = ground arith

-- So `paging_map` refuses every region whose end was aligned in this way.
pub paging_map-paging_align :
    (directory va pa end flags : ℕ) (w : Words)
    → va % 4096 ≡ 0
    → pa % 4096 ≡ 0
    → end % 4096 ≢ 0
    → end < 2 ^ 32
    → paging_map directory va pa (paging_align end) flags w ≡ (neg32 einval, w)
unfolding paging_map
paging_map-paging_align directory va pa end flags w va_ok pa_ok off small =
    ground (arith, paging_align_unaligned end off small)
