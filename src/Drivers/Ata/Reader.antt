-- ===== src/Drivers/Ata/Reader.antt =====
-- `read_sector` of kernel/drivers/ata/ata.cpp as the sector reader that the disk takes.
use n00b_os.Prelude.{
  ℕ, ◌+◌, ◌*◌, ◌/◌, ◌%◌, ◌^◌, ◌<◌, ◌≤◌, ◌≡◌, refl, ◌∙◌, fun_ext, if◌then◌else◌, ltb, none, some,
  neg32, dec_lt, le→ltb, lt→ltb, arith,
}
use n00b_os.Disk.{SectorReader}
use n00b_os.Disk.Streamer.Bytes.{byte_at, Delivers}
use n00b_os.Drivers.Ata.{Device, read_sector}
use n00b_os.Drivers.Ata.Contract.{Follows}
use n00b_os.Drivers.Ata.Protocol.{read_sector_lem}

module _ (device : Device) (fuel : ℕ) (buf : ℕ → ℕ) (state_at : ℕ → device.State) where
  -- What a read leaves in the buffer; the device is in `state_at lba` when sector `lba` is read.
  abbrev pub ata_reader : SectorReader
  ata_reader lba total = elim (read_sector device fuel lba total buf (state_at lba)) [
    | none ↦ (neg32 1, buf)
    | some (result, buf', s') ↦ (result, buf')
  ]

  -- The sectors, with what stands behind them in the buffer.
  abbrev pub in_buffer : (ℕ → ℕ → ℕ) → ℕ → ℕ → ℕ
  in_buffer sector lba a = if ltb a 512 then sector lba a else buf a

  -- The driver fills the disk's interface: on a device that keeps to the protocol and is busy for
  -- fewer than `patience` reads of its status it delivers each sector of a number of 28 bits, in
  -- whatever states the reads find the device.
  pub ata_reader-Delivers :
      (sector : ℕ → ℕ → ℕ) (patience limit : ℕ)
      → Follows device sector patience
      → ((lba i : ℕ) → sector lba i < 256)
      → patience ≤ fuel
      → limit ≤ 2 ^ 28
      → Delivers ata_reader (in_buffer sector) limit
  ata_reader-Delivers sector patience limit follows bytes enough few lba below =
      let (buf', s', reads, holds) =
        read_sector_lem device sector patience follows bytes fuel lba 1 buf (state_at lba) enough
          (omega arith) (omega arith) (omega arith) in
      let same : buf' ≡ in_buffer sector lba = fun_ext λ a. holds a ∙ first_sector sector lba a in
      rw (reads, ata_reader, same) refl
    where
      first_sector :
          (sector : ℕ → ℕ → ℕ) (lba a : ℕ)
          → (if ltb a (1 * 512) then sector (lba + a / 512) (a % 512) else buf a)
            ≡ (if ltb a 512 then sector lba a else buf a)
      first_sector sector lba a = elim (dec_lt a 512) [
        | yes lt ↦
            let none_on : lba + a / 512 ≡ lba = omega arith in
            let same : a % 512 ≡ a = omega arith in rw (none_on, same) refl
        | no ge ↦ rw (le→ltb a 512 (omega arith)) refl
      ]

  pub byte_at-in_buffer :
      (sector : ℕ → ℕ → ℕ) (p : ℕ) → byte_at (in_buffer sector) p ≡ byte_at sector p
  byte_at-in_buffer sector p = rw (lt→ltb (p % 512) 512 (omega arith)) refl
