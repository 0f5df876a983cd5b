-- ===== src/Tests/Chunk.antt =====
-- `paging_new` of kernel/arch/i386/paging/paging.cpp on a heap that gives out one page after the other.
use n00b_os.Prelude.{ℕ, ◌+◌, ◌*◌, ◌/◌, ◌^◌, ◌<◌, ◌≡◌, refl, some, ap, bit_or, arith}
use n00b_os.Disk.Streamer.{Allocator}
use n00b_os.Arch.Paging.{Words}
use n00b_os.Arch.Paging.Walk.{pte, translate, IsDirectory}
use n00b_os.Arch.Paging.Chunk.{paging_new}
use n00b_os.Arch.Paging.Chunk.Identity.{Pages, paging_new-IsDirectory}

abbrev rising : Allocator
rising = record { State = ℕ; kzalloc = λ n s. some (s, s + 4096); kfree = λ a s. some s }

abbrev from_16_MiB : Pages rising 0x1000000
from_16_MiB = record {
  states = λ i. 0x1000000 + i * 4096;
  pages = λ i. 0x1000000 + i * 4096;
  chunk = 0x1401000;
  rest = 0x1402000;
  starts = refl;
  served = λ i le. ap (λ n. some (0x1000000 + i * 4096, n)) (omega arith);
  chunk_served = refl;
  aligned = λ i le. omega arith;
  in_memory = λ i le. omega arith;
  distinct = λ i j le le' ne. omega (arith, ne);
}

paging_new-IsDirectory_example :
    (w' : Words) × (paging_new rising 7 (λ a. 0) 0x1000000
      ≡ some (0x1401000, record { directory_entry = 0x1000000 }, w', 0x1402000))
    × IsDirectory w' 0x1000000
    × ((va : ℕ) → va < 2 ^ 32 → pte w' 0x1000000 va ≡ bit_or (va / 4096 * 4096) 7)
    × ((va : ℕ) → va < 2 ^ 32 → translate w' 0x1000000 va ≡ some va)
paging_new-IsDirectory_example =
    paging_new-IsDirectory rising 0x1000000 from_16_MiB 7 (omega arith) (λ a. 0) (λ a. omega arith)
