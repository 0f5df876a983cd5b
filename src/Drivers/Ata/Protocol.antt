-- ===== src/Drivers/Ata/Protocol.antt =====
-- What `read_sector` of kernel/drivers/ata/ata.cpp delivers from a device that keeps to the protocol
-- of a disk controller.
use n00b_os.Prelude.{
  ℕ, ◌+◌, ◌*◌, ◌/◌, ◌%◌, ◌^◌, ◌≤◌, ◌<◌, ◌≡◌, refl, ◌∙◌, false, ◌==◌, if◌then◌else◌, ltb, some,
  is_neg_small, rounds_small, ==_refl, bit_or, field_bit_or, arith,
}
use n00b_os.Drivers.Ata.{Device, sar, start_read, read_sector}
use n00b_os.Drivers.Ata.Contract.{IsParameter, sector_of, Follows}
use n00b_os.Drivers.Ata.Transfer.{sectors_lem}

-- The fields of a sector's number as they are written.
shifted :
    (lba : ℕ)
    → lba < 2 ^ 28
    → (bit_or (sar lba (2 ^ 24)) 0xE0 ≡ 0xE0 + lba / 2 ^ 24)
      × (sar lba (2 ^ 8) ≡ lba / 2 ^ 8)
      × (sar lba (2 ^ 16) ≡ lba / 2 ^ 16)
shifted lba small =
    rw (is_neg_small lba (omega arith)) (field_bit_or 4 14 (lba / 2 ^ 24) (omega arith), refl, refl)

module _ (device : Device) (sector : ℕ → ℕ → ℕ) (patience : ℕ)
    (follows : Follows device sector patience) (bytes : (lba i : ℕ) → sector lba i < 256) where
  open follows use {register, Busy, Ready, writes, command, polls, shows, gives, goes_on, finishes}

  other :
      (port value q : ℕ) (s : device.State)
      → IsParameter port
      → (q == port) ≡ false
      → register q (device.outb port value s) ≡ register q s
  other port value q s parameter differs = rw (writes port value q s parameter, differs) refl

  same :
      (port value : ℕ) (s : device.State)
      → IsParameter port
      → register port (device.outb port value s) ≡ value
  same port value s parameter = rw (writes port value port s parameter, ==_refl port) refl

  -- The command reaches the device with the sector's number and the count.
  start_read_lem :
      (lba total : ℕ) (s : device.State)
      → lba < 2 ^ 28
      → 0 < total
      → total < 256
      → (j : ℕ) × (j < patience) × Busy j lba total (start_read device lba total s)
  unfolding start_read
  start_read_lem lba total s small some_sectors few =
      let v1 = bit_or (sar lba (2 ^ 24)) 0xE0 % 256 in
      let v2 = total % 256 in
      let v3 = lba % 256 in
      let v4 = sar lba (2 ^ 8) % 256 in
      let v5 = sar lba (2 ^ 16) % 256 in
      let s1 = device.outb 0x1F6 v1 s in
      let s2 = device.outb 0x1F2 v2 s1 in
      let s3 = device.outb 0x1F3 v3 s2 in
      let s4 = device.outb 0x1F4 v4 s3 in
      let s5 = device.outb 0x1F5 v5 s4 in
      let p2 : IsParameter 0x1F2 = (omega arith, omega arith) in
      let p3 : IsParameter 0x1F3 = (omega arith, omega arith) in
      let p4 : IsParameter 0x1F4 = (omega arith, omega arith) in
      let p5 : IsParameter 0x1F5 = (omega arith, omega arith) in
      let p6 : IsParameter 0x1F6 = (omega arith, omega arith) in
      let drive : register 0x1F6 s5 ≡ v1 =
        other 0x1F5 v5 0x1F6 s4 p5 refl
        ∙ other 0x1F4 v4 0x1F6 s3 p4 refl
        ∙ other 0x1F3 v3 0x1F6 s2 p3 refl
        ∙ other 0x1F2 v2 0x1F6 s1 p2 refl
        ∙ same 0x1F6 v1 s p6 in
      let count : register 0x1F2 s5 ≡ v2 =
        other 0x1F5 v5 0x1F2 s4 p5 refl
        ∙ other 0x1F4 v4 0x1F2 s3 p4 refl
        ∙ other 0x1F3 v3 0x1F2 s2 p3 refl
        ∙ same 0x1F2 v2 s1 p2 in
      let low : register 0x1F3 s5 ≡ v3 =
        other 0x1F5 v5 0x1F3 s4 p5 refl ∙ other 0x1F4 v4 0x1F3 s3 p4 refl ∙ same 0x1F3 v3 s2 p3 in
      let mid : register 0x1F4 s5 ≡ v4 = other 0x1F5 v5 0x1F4 s4 p5 refl ∙ same 0x1F4 v4 s3 p4 in
      let high : register 0x1F5 s5 ≡ v5 = same 0x1F5 v5 s4 p5 in
      let fields = shifted lba small in
      let (j, lt, busy) = command s5 (omega (arith, count)) (omega (arith, drive, fields)) in
      let number : sector_of (λ q. register q s5) ≡ lba =
        omega (arith, drive, low, mid, high, fields) in
      let all : register 0x1F2 s5 ≡ total = omega (arith, count) in
      (j, lt, rw (number, all) at busy)

  -- `read_sector` returns 0 and fills the buffer with the bytes of the `total` sectors from `lba` on
  -- and nothing else, from any state of a device that keeps to the protocol and is busy for fewer
  -- than `patience` reads of its status. For sector numbers of 28 bits, 1 to 255 sectors, and fuel
  -- for `patience` reads.
  pub read_sector_lem :
      (fuel lba total : ℕ) (buf : ℕ → ℕ) (s : device.State)
      → patience ≤ fuel
      → lba < 2 ^ 28
      → 0 < total
      → total < 256
      → (buf' : ℕ → ℕ) × (s' : device.State) × (read_sector device fuel lba total buf s
          ≡ some (0, buf', s'))
        × ((a : ℕ)
            → buf' a ≡ (if ltb a (total * 512) then sector (lba + a / 512) (a % 512) else buf a))
  unfolding read_sector
  read_sector_lem fuel lba total buf s enough small some_sectors few =
      let (j, lt, busy) = start_read_lem lba total s small some_sectors few in
      let (buf', s', loops, bytes_there) =
        sectors_lem device sector patience follows bytes total fuel j 0 lba buf
          (start_read device lba total s) enough lt busy in
      (
        buf',
        s',
        rw (rounds_small total (omega arith), loops) refl,
        λ a. bytes_there a ∙ ground arith,
      )
