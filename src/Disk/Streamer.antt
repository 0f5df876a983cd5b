-- ===== src/Disk/Streamer.antt =====
-- kernel/disk/disk_streamer.cpp: reading bytes at any position of a disk. What `out` has received is
-- the list of the bytes written through `out_char`, in order; `buf` is a function from the index.
-- The allocator is an interface, which the kernel's heap fills.
pub mod Bytes
use n00b_os.Prelude.{
  ℕ, zero, suc, ◌+◌, ◌-◌, ◌%◌, ◌/◌, ◌^◌, Bool, true, false, ◌==◌, if◌then◌else◌, ltb, leb, Option,
  none, some, List, [], ◌∷◌, ◌++◌, add32, sub32, sdiv, smod, slt, is_neg, rounds,
}
use mathlib.Core.Option
use n00b_os.Disk.{Disk, DiskPtr, deref, get, SectorReader, read_block}

-- `kzalloc` and `kfree` of kernel/mm/heap; `none` is a call that does not return.
pub record Allocator : Type 1 where
  pub State : Type 0
  pub kzalloc : ℕ → State → Option (ℕ × State)
  pub kfree : ℕ → State → Option State

pub record DiskStream : Type 0 where
  pub pos : ℕ
  pub d : DiskPtr

abbrev pub sizeof_disk_stream : ℕ
sizeof_disk_stream = 8

unfoldable pub seek : DiskStream → ℕ → ℕ × DiskStream
seek stream pos = (0, record stream { pos = pos })

-- `*out_char++ = buf[idx]; ++bytes_read;`, with `k` rounds left.
unfoldable pub copy_bytes : ℕ → (ℕ → ℕ) → ℕ → ℕ → List ℕ → ℕ × List ℕ
copy_bytes zero buf idx bytes_read out = (bytes_read, out)
copy_bytes (suc k) buf idx bytes_read out =
    copy_bytes k buf (idx + 1) (add32 bytes_read 1) (out ++ buf idx ∷ [])

-- What one round copies out of the sector in `buf`: down to `offset` from the second round on, then
-- up to the sector boundary or to `total`.
unfoldable pub copy_round : ℕ → ℕ → (ℕ → ℕ) → ℕ → ℕ → ℕ → List ℕ → ℕ × List ℕ
unfolding copy_bytes
copy_round sector_size offset buf total bytes_read sectors_read out =
    let head =
      if slt 0 sectors_read
      then copy_bytes (rounds offset) buf 0 bytes_read out
      else (bytes_read, out) in
    let remainder_to_next_sector = sub32 sector_size offset in
    let remainder = sub32 total head.0 in
    let bytes_to_read =
      if slt remainder_to_next_sector remainder then remainder_to_next_sector else remainder in
    copy_bytes (rounds bytes_to_read) buf offset head.0 head.1

module _ (primary_disk : Disk) (read_sector : SectorReader) where
  -- The `while` loop on fuel. It returns 0 or the error of `read_block`, and what is written.
  unfoldable pub read_loop : ℕ → DiskStream → ℕ → (ℕ → ℕ) → ℕ → ℕ → List ℕ → Option (ℕ × List ℕ)
  unfolding read_block
  read_loop zero stream total buf bytes_read sectors_read out = none
  read_loop (suc fuel) stream total buf bytes_read sectors_read out =
      let sector_size = (deref primary_disk stream.d).sector_size in
      let sector = sdiv (add32 stream.pos bytes_read) sector_size in
      let offset = smod (add32 stream.pos bytes_read) sector_size in
      let (res, buf') = read_block read_sector stream.d sector 1 buf in
      let (bytes_read', out') =
        copy_round sector_size offset buf' total bytes_read sectors_read out in
      let rest = read_loop fuel stream total buf' bytes_read' (add32 sectors_read 1) out' in
      if slt bytes_read total then if is_neg res then some (res, out) else rest else some (0, out)

  module _ (alloc : Allocator) where
    open alloc use {State, kzalloc, kfree}

    -- The stream with its address; a null stream is `none`: where there is no such disk, and where the
    -- request fails, behind the stores that the source makes at address 0.
    unfoldable pub new_stream : ℕ → State → Option (Option (ℕ × DiskStream) × State)
    unfolding get
    new_stream disk_id s = elim (get disk_id) [
      | none ↦ some (none, s)
      | some d ↦
          Option.map
            (λ (stream, s').
              (if stream == 0 then none else some (stream, record { pos = 0; d = d }), s'))
            (kzalloc sizeof_disk_stream s)
    ]

    -- The result, the bytes written to `out`, the stream and the allocator's state. The `fuel` is one
    -- round more than there are bytes to read.
    unfoldable pub read : DiskStream → ℕ → State → Option (ℕ × List ℕ × DiskStream × State)
    unfolding read_loop Option.bind
    read stream total s =
        Option.bind (kzalloc (deref primary_disk stream.d).sector_size s) (λ (buf, s1).
          Option.bind (read_loop (total + 1) stream total (λ _. 0) 0 0 []) (λ (res, out).
            if is_neg res
            then some (res, out, stream, s1)
            else Option.map (λ s2. (0, out, record stream { pos = add32 stream.pos total }, s2))
                (kfree buf s1)))

    -- `stream` is the address of the stream's allocation.
    unfoldable pub close : ℕ → State → Option State
    close stream s = kfree stream s
