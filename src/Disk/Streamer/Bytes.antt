-- ===== src/Disk/Streamer/Bytes.antt =====
-- What `disk::streamer::read` returns: the bytes of the disk from the stream's position on.
use mathlib.Core.Option
use n00b_os.Prelude.{
  ℕ, zero, suc, ◌+◌, ◌-◌, ◌*◌, ◌%◌, ◌/◌, ◌^◌, ◌≤◌, ◌<◌, ◌≡◌, refl, ◌⊎◌, inl, inr, true, false,
  if◌then◌else◌, some, List, [], ◌∷◌, ◌++◌, add32, sub32, slt, rounds, arith, tabulate,
  tabulate-ext, tabulate-add, ap, ◌∙◌, dec_lt, lt→ltb, le→ltb, min, slt_small, rounds_small,
  sdiv_small, smod_small, is_neg_small,
}
use mathlib.Core.List.{append-nil, append_assoc}
use n00b_os.Disk.{Disk, primary, SectorReader}
use n00b_os.Disk.Streamer.{Allocator, copy_bytes, copy_round, read_loop, read}

-- The byte of the disk at position `p`, for 512-byte sectors that `sector` gives by their numbers.
abbrev pub byte_at : (ℕ → ℕ → ℕ) → ℕ → ℕ
byte_at sector p = sector (p / 512) (p % 512)

copy_bytes_lem :
    (k : ℕ) (buf : ℕ → ℕ) (idx bytes_read : ℕ) (out : List ℕ)
    → bytes_read + k < 2 ^ 31
    → copy_bytes k buf idx bytes_read out ≡ (bytes_read + k, out ++ tabulate buf idx k)
unfolding copy_bytes
copy_bytes_lem zero buf idx bytes_read out small = ground (arith, append-nil out)
copy_bytes_lem (suc k) buf idx bytes_read out small = ground (
  arith,
  copy_bytes_lem k buf (idx + 1) (add32 bytes_read 1) (out ++ buf idx ∷ []),
  append_assoc out (buf idx ∷ []) (tabulate buf (idx + 1) k),
)

-- The pieces of a read inside one sector.
tabulate-sector :
    (sector : ℕ → ℕ → ℕ) (p k : ℕ)
    → p % 512 + k ≤ 512
    → tabulate (sector (p / 512)) (p % 512) k ≡ tabulate (byte_at sector) p k
tabulate-sector sector p k fits =
    tabulate-ext (sector (p / 512)) (byte_at sector) k (p % 512) p λ i lt.
      let same_sector : (p + i) / 512 ≡ p / 512 = omega arith in
      let next_byte : (p + i) % 512 ≡ p % 512 + i = omega arith in rw (same_sector, next_byte)

join_pieces :
    (sector : ℕ → ℕ → ℕ) (out : List ℕ) (p n k : ℕ)
    → p % 512 + n ≤ 512
    → (out ++ tabulate (sector (p / 512)) (p % 512) n) ++ tabulate (byte_at sector) (p + n) k
      ≡ out ++ tabulate (byte_at sector) p (n + k)
join_pieces sector out p n k fits =
    rw (tabulate-sector sector p n fits, append_assoc, ← tabulate-add (byte_at sector) n k p)

-- One round from position `p`, which is `offset` bytes into its sector, if the round is the first or
-- starts on a sector boundary: the rest of the sector, or as much of it as is wanted.
copy_round_lem :
    (offset : ℕ) (buf : ℕ → ℕ) (total b sectors : ℕ) (out : List ℕ)
    → offset < 512
    → b < total
    → total < 2 ^ 31
    → sectors ≤ b
    → (sectors ≡ 0) ⊎ (offset ≡ 0)
    → copy_round 512 offset buf total b sectors out ≡ (
      b + min (512 - offset) (total - b),
      out ++ tabulate buf offset (min (512 - offset) (total - b)),
    )
unfolding copy_round
copy_round_lem offset buf total b sectors out in_sector more small few aligned =
    let no_head : (if slt 0 sectors then copy_bytes (rounds offset) buf 0 b out else (b, out))
        ≡ (b, out) =
      elim aligned [
        | inl first ↦ rw (slt_small 0 sectors (omega arith) (omega arith), first)
        | inr start ↦ rw start (
            ground (
              arith,
              rounds_small 0 (omega arith),
              copy_bytes_lem 0 buf 0 b out (omega arith),
              append-nil out,
            ))
      ] in
    let size : (if slt (sub32 512 offset) (sub32 total b) then sub32 512 offset else sub32 total b)
        ≡ min (512 - offset) (total - b) =
      ground (arith, slt_small (sub32 512 offset) (sub32 total b) (omega arith) (omega arith)) in
    rw no_head (
      rw size (
        rw (rounds_small (min (512 - offset) (total - b)) (omega arith))
          (copy_bytes_lem _ buf offset b out (omega arith))))

-- `ata::read_sector` of one sector succeeds for the sectors below `limit`, and delivers what the
-- sector holds.
abbrev pub Delivers : SectorReader → (ℕ → ℕ → ℕ) → ℕ → Type 0
Delivers read_sector sector limit = (lba : ℕ) → lba < limit → read_sector lba 1 ≡ (0, sector lba)

module _ (disk : Disk) (size : disk.sector_size ≡ 512) (read_sector : SectorReader)
    (sector : ℕ → ℕ → ℕ) (limit : ℕ) (delivers : Delivers read_sector sector limit) where
  -- One round inside a sector boundary: from position `p`, with `b` of `total` bytes read.
  read_loop_lem :
      (fuel pos total : ℕ) (buf : ℕ → ℕ) (b sectors : ℕ) (out : List ℕ)
      → pos + total < 2 ^ 31
      → pos + total ≤ limit * 512
      → b ≤ total
      → sectors ≤ b
      → (sectors ≡ 0) ⊎ ((b ≡ total) ⊎ ((pos + b) % 512 ≡ 0))
      → total - b < fuel
      → read_loop disk read_sector fuel (record { pos = pos; d = primary }) total buf b sectors out
        ≡ some (0, out ++ tabulate (byte_at sector) (pos + b) (total - b))
  unfolding read_loop
  read_loop_lem zero pos total buf b sectors out small inside le few aligned enough =
      absurd (omega arith)
  read_loop_lem (suc fuel) pos total buf b sectors out small inside le few aligned enough =
      elim (dec_lt b total) [
        | yes more ↦
            let p = pos + b in
            let offset = p % 512 in
            let n = min (512 - offset) (total - b) in
            let runs : slt b total ≡ true =
              slt_small b total (omega arith) (omega arith) ∙ lt→ltb b total more in
            let at_p : add32 pos b ≡ p = omega arith in
            let first_or_start : (sectors ≡ 0) ⊎ (offset ≡ 0) = ground arith in
            let round =
              copy_round_lem offset (sector (p / 512)) total b sectors out (omega arith) more
                (omega arith) few first_or_start in
            let next : add32 sectors 1 ≡ sectors + 1 = omega arith in
            let shift : pos + (b + n) ≡ p + n = omega arith in
            let left : n + (total - (b + n)) ≡ total - b = omega arith in
            let joins = rw left at (join_pieces sector out p n (total - (b + n)) (omega arith)) in
            let ih =
              read_loop_lem fuel pos total (sector (p / 512)) (b + n) (sectors + 1)
                (out ++ tabulate (sector (p / 512)) offset n) small inside (omega arith)
                (omega arith)
                (elim (dec_lt (512 - offset) (total - b)) [
                  | yes boundary ↦ inr (inr (omega arith))
                  | no last ↦ inr (inl (omega arith))
                ])
                (omega arith) in
            rw
              (
                runs,
                size,
                at_p,
                sdiv_small p 512 (omega arith),
                smod_small p 512 (omega arith),
                delivers (p / 512) (omega arith),
                is_neg_small 0 (omega arith),
                round,
                next,
              )
              (ih ∙ ap (λ l. some (0, l)) (rw (shift, joins)))
        | no done ↦
            let left : total - b ≡ 0 = omega arith in
            let ends : slt b total ≡ false =
              slt_small b total (omega arith) (omega arith) ∙ le→ltb b total (omega arith) in
            rw (ends, left, append-nil out)
      ]

  -- For a disk with 512-byte sectors that the device delivers, and a range of positions that fits an
  -- `int`: `read` returns 0, `out` receives exactly the `total` bytes of the disk from the stream's
  -- position on, the stream has moved by `total`, and the sector buffer is allocated and freed once.
  pub read_lem :
      (alloc : Allocator) (pos total : ℕ) (s s1 s2 : alloc.State) (buf : ℕ)
      → pos + total < 2 ^ 31
      → pos + total ≤ limit * 512
      → alloc.kzalloc 512 s ≡ some (buf, s1)
      → alloc.kfree buf s1 ≡ some s2
      → read disk read_sector alloc (record { pos = pos; d = primary }) total s
        ≡ some
            (0, tabulate (byte_at sector) pos total, record { pos = pos + total; d = primary }, s2)
  unfolding read Option.bind
  read_lem alloc pos total s s1 s2 buf small inside allocates frees =
      let start : pos + 0 ≡ pos = omega arith in
      let all : total - 0 ≡ total = omega arith in
      let moved : add32 pos total ≡ pos + total = omega arith in
      let loop =
        rw (start, all) at
          (read_loop_lem (total + 1) pos total (λ _. 0) 0 0 [] small inside (omega arith)
            (omega arith) (inl refl) (omega arith)) in
      let takes : alloc.kzalloc disk.sector_size s ≡ some (buf, s1) =
        ap (λ n. alloc.kzalloc n s) size ∙ allocates in
      rw (takes, loop, is_neg_small 0 (omega arith), frees, moved)
