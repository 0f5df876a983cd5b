-- ===== src/Drivers/Ata/Contract.antt =====
-- The protocol of the disk controller that kernel/drivers/ata/ata.cpp talks to, as a property of a
-- device: sectors of 28-bit numbers, read word by word once a status bit is set.
use n00b_os.Prelude.{
  ℕ, suc, ◌+◌, ◌*◌, ◌/◌, ◌%◌, ◌^◌, ◌≤◌, ◌<◌, ◌≡◌, ◌≢◌, ◌==◌, if◌then◌else◌, bit_and,
}
use n00b_os.Drivers.Ata.{
  Device, data_register, sector_count_register, lba_low_register, lba_mid_register,
  lba_high_register, drive_head_register, read_status_register, write_command_register,
  read_with_retry,
}

-- The registers that hold the count and the 28 bits of the sector's number.
abbrev pub IsParameter : ℕ → Type 0
IsParameter port = (0x1F2 ≤ port) × (port < 0x1F7)

abbrev pub sector_of : (ℕ → ℕ) → ℕ
sector_of r =
    r lba_low_register
    + r lba_mid_register * 2 ^ 8
    + r lba_high_register * 2 ^ 16
    + r drive_head_register % 16 * 2 ^ 24

-- A device that keeps to the protocol, with the bytes of its sectors. A write to a parameter's
-- register sets it. The command, for a count that is not 0 and the master drive addressed by sector
-- numbers, makes the device busy with the first sector; it is busy for fewer than `patience` reads
-- of its status, and the one after these shows that the sector's first word is ready. Each read of
-- the data register gives the next word, and after the last one the device is busy with the next
-- sector of the command.
pub record Follows (device : Device) (sector : ℕ → ℕ → ℕ) (patience : ℕ) : Type 1 where
  pub register : ℕ → device.State → ℕ
  pub Busy : ℕ → ℕ → ℕ → device.State → Type 0
  pub Ready : ℕ → ℕ → ℕ → device.State → Type 0
  pub writes :
      (port value q : ℕ) (s : device.State)
      → IsParameter port
      → register q (device.outb port value s) ≡ (if q == port then value else register q s)
  pub command :
      (s : device.State)
      → register sector_count_register s ≢ 0
      → register drive_head_register s / 16 ≡ 0xE
      → (j : ℕ) × (j < patience)
        × Busy j
            (sector_of (λ q. register q s))
            (register sector_count_register s)
            (device.outb write_command_register read_with_retry s)
  pub polls :
      (j lba n : ℕ) (s : device.State)
      → Busy (suc j) lba (suc n) s
      → (bit_and (device.insb read_status_register s).0 0x08 ≡ 0)
        × Busy j lba (suc n) (device.insb read_status_register s).1
  pub shows :
      (lba n : ℕ) (s : device.State)
      → Busy 0 lba (suc n) s
      → (bit_and (device.insb read_status_register s).0 0x08 ≢ 0)
        × Ready lba n 0 (device.insb read_status_register s).1
  pub gives :
      (lba n w : ℕ) (s : device.State)
      → Ready lba n w s
      → (device.insw data_register s).0 ≡ sector lba (w * 2) + sector lba (w * 2 + 1) * 256
  pub goes_on :
      (lba n w : ℕ) (s : device.State)
      → Ready lba n w s
      → w < 255
      → Ready lba n (w + 1) (device.insw data_register s).1
  pub finishes :
      (lba n : ℕ) (s : device.State)
      → Ready lba n 255 s
      → (j : ℕ) × (j < patience) × Busy j (lba + 1) n (device.insw data_register s).1
