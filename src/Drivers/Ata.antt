-- ===== src/Drivers/Ata.antt =====
-- kernel/drivers/ata/ata.cpp: reading sectors through the ports of the disk controller. The
-- instructions behind `outb`, `insb` and `insw` (kernel/arch/i386/io/io.asm) reach a device outside
-- the repository, which is a parameter. The buffer is a function from the byte's index.
pub mod Contract
pub mod Transfer
pub mod Protocol
pub mod Reader
use mathlib.Core.Option
use n00b_os.Prelude.{
  ℕ, zero, suc, ◌+◌, ◌-◌, ◌*◌, ◌/◌, ◌%◌, ◌^◌, ◌==◌, not, if◌then◌else◌, ltb, Option, none, some,
  is_neg, rounds, bit_and, bit_or,
}

-- What the port instructions do: a write changes the device, a read gives a value and may change it.
pub record Device : Type 1 where
  pub State : Type 0
  pub outb : ℕ → ℕ → State → State
  pub insb : ℕ → State → ℕ × State
  pub insw : ℕ → State → ℕ × State

abbrev pub data_register : ℕ
data_register = 0x1F0

abbrev pub sector_count_register : ℕ
sector_count_register = 0x1F2

abbrev pub lba_low_register : ℕ
lba_low_register = 0x1F3

abbrev pub lba_mid_register : ℕ
lba_mid_register = 0x1F4

abbrev pub lba_high_register : ℕ
lba_high_register = 0x1F5

abbrev pub drive_head_register : ℕ
drive_head_register = 0x1F6

abbrev pub read_status_register : ℕ
read_status_register = 0x1F7

abbrev pub write_command_register : ℕ
write_command_register = 0x1F7

abbrev pub master_drive : ℕ
master_drive = 0xE0

abbrev pub read_with_retry : ℕ
read_with_retry = 0x20

-- `lba >> k` for an `int` by its pattern: the sign is shifted in.
abbrev pub sar : ℕ → ℕ → ℕ
sar lba p = if is_neg lba then lba / p + (2 ^ 32 - 2 ^ 32 / p) else lba / p

-- A word in the buffer at byte `p`.
abbrev pub store16 : (ℕ → ℕ) → ℕ → ℕ → ℕ → ℕ
store16 buf p v a = if a == p then v % 256 else if a == p + 1 then v / 256 else buf a

module _ (device : Device) where
  open device use {State, outb, insb, insw}

  -- The six writes that start the command; a port takes the low byte.
  unfoldable pub start_read : ℕ → ℕ → State → State
  start_read lba total s =
      let s1 = outb drive_head_register (bit_or (sar lba (2 ^ 24)) master_drive % 256) s in
      let s2 = outb sector_count_register (total % 256) s1 in
      let s3 = outb lba_low_register (lba % 256) s2 in
      let s4 = outb lba_mid_register (sar lba (2 ^ 8) % 256) s3 in
      let s5 = outb lba_high_register (sar lba (2 ^ 16) % 256) s4 in
      outb write_command_register read_with_retry s5

  -- The wait for the buffer on fuel, `none` where it does not end within it.
  unfoldable pub wait_loop : ℕ → State → Option State
  wait_loop zero s = none
  wait_loop (suc fuel) s =
      let (c, s') = insb read_status_register s in
      let rest = wait_loop fuel s' in if bit_and c 0x08 == 0 then rest else some s'

  -- The copy of the words, `ptr` being the byte's index, with `k` rounds left.
  unfoldable pub copy_words : ℕ → ℕ → (ℕ → ℕ) → State → (ℕ → ℕ) × State
  copy_words zero ptr buf s = (buf, s)
  copy_words (suc k) ptr buf s =
      let (word, s') = insw data_register s in copy_words k (ptr + 2) (store16 buf ptr word) s'

  -- The loop over the sectors with `k` rounds left.
  unfoldable pub sector_loop : ℕ → ℕ → ℕ → (ℕ → ℕ) → State → Option ((ℕ → ℕ) × State)
  unfolding wait_loop copy_words Option.bind
  sector_loop zero fuel ptr buf s = some (buf, s)
  sector_loop (suc k) fuel ptr buf s =
      Option.bind (wait_loop fuel s) (λ s'.
        let (buf', s'') = copy_words 256 ptr buf s' in sector_loop k fuel (ptr + 512) buf' s'')

  -- The result, the buffer and the device.
  unfoldable pub read_sector : ℕ → ℕ → ℕ → (ℕ → ℕ) → State → Option (ℕ × (ℕ → ℕ) × State)
  unfolding start_read sector_loop
  read_sector fuel lba total buf s =
      Option.map (λ (buf', s'). (0, buf', s'))
        (sector_loop (rounds total) fuel 0 buf (start_read lba total s))
