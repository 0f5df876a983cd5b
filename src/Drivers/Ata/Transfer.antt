-- ===== src/Drivers/Ata/Transfer.antt =====
-- The loops of `read_sector` of kernel/drivers/ata/ata.cpp on a device that keeps to the protocol:
-- waiting for a sector, copying its words, and doing so for each sector.
use mathlib.Core.Option
use n00b_os.Prelude.{
  ℕ, zero, suc, ◌+◌, ◌-◌, ◌*◌, ◌/◌, ◌%◌, ◌≤◌, ◌<◌, ◌≡◌, refl, ◌∙◌, ◌&&◌, ◌==◌, if◌then◌else◌, ltb,
  leb, some, ==_of_ne, arith,
}
use n00b_os.Drivers.Ata.{
  Device, data_register, read_status_register, store16, wait_loop, copy_words, sector_loop,
}
use n00b_os.Drivers.Ata.Contract.{Follows}

store16_lem :
    (buf : ℕ → ℕ) (p lo hi a : ℕ)
    → lo < 256
    → store16 buf p (lo + hi * 256) a ≡ (if a == p then lo else if a == p + 1 then hi else buf a)
store16_lem buf p lo hi a small = ground arith

two_bytes :
    (f : ℕ → ℕ) (w ptr a old : ℕ)
    → (if a == ptr then f (w * 2) else if a == ptr + 1 then f (w * 2 + 1) else old)
      ≡ (if leb ptr a && ltb a (ptr + 1 * 2) then f (w * 2 + (a - ptr)) else old)
two_bytes f w ptr a old = ground arith

more_bytes :
    (f : ℕ → ℕ) (w k ptr a old : ℕ)
    → (if leb (ptr + 2) a && ltb a (ptr + 2 + suc k * 2)
        then f ((w + 1) * 2 + (a - (ptr + 2)))
        else if a == ptr
        then f (w * 2)
        else if a == ptr + 1
        then f (w * 2 + 1)
        else old)
      ≡ (if leb ptr a && ltb a (ptr + suc (suc k) * 2) then f (w * 2 + (a - ptr)) else old)
more_bytes f w k ptr a old = ground arith

copy_words-zero :
    (device : Device) (ptr : ℕ) (buf : ℕ → ℕ) (s : device.State)
    → copy_words device 0 ptr buf s ≡ (buf, s)
unfolding copy_words
copy_words-zero device ptr buf s = refl

copy_words-suc :
    (device : Device) (k ptr : ℕ) (buf : ℕ → ℕ) (s : device.State)
    → copy_words device (suc k) ptr buf s
      ≡ copy_words device k
          (ptr + 2)
          (store16 buf ptr (device.insw data_register s).0)
          (device.insw data_register s).1
unfolding copy_words
copy_words-suc device k ptr buf s = refl

more_sectors :
    (f : ℕ → ℕ → ℕ) (lba k ptr a old : ℕ)
    → (if leb (ptr + 512) a && ltb a (ptr + 512 + k * 512)
        then f (lba + 1 + (a - (ptr + 512)) / 512) ((a - (ptr + 512)) % 512)
        else if leb ptr a && ltb a (ptr + 256 * 2)
        then f lba (0 * 2 + (a - ptr))
        else old)
      ≡ (if leb ptr a && ltb a (ptr + suc k * 512)
          then f (lba + (a - ptr) / 512) ((a - ptr) % 512)
          else old)
more_sectors f lba k ptr a old = ground arith

module _ (device : Device) (sector : ℕ → ℕ → ℕ) (patience : ℕ)
    (follows : Follows device sector patience) (bytes : (lba i : ℕ) → sector lba i < 256) where
  open follows use {register, Busy, Ready, writes, command, polls, shows, gives, goes_on, finishes}

  wait_lem :
      (j fuel lba n : ℕ) (s : device.State)
      → j < fuel
      → Busy j lba (suc n) s
      → (s' : device.State) × (wait_loop device fuel s ≡ some s') × Ready lba n 0 s'
  unfolding wait_loop
  wait_lem j zero lba n s enough busy = absurd (omega arith)
  wait_lem zero (suc fuel) lba n s enough busy =
      let (set, ready) = shows lba n s busy in
      ((device.insb read_status_register s).1, rw (==_of_ne set), ready)
  wait_lem (suc j) (suc fuel) lba n s enough busy =
      let (unset, busy') = polls j lba n s busy in
      let (s', waits, ready) =
        wait_lem j fuel lba n (device.insb read_status_register s).1 (omega arith) busy' in
      (s', rw unset waits, ready)

  -- The words of a sector from word `w` on, to byte `ptr` of the buffer.
  words_lem :
      (k w ptr lba n : ℕ) (buf : ℕ → ℕ) (s : device.State)
      → Ready lba n w s
      → w + suc k ≡ 256
      → (j : ℕ) × (j < patience)
        × Busy j (lba + 1) n (copy_words device (suc k) ptr buf s).1
        × ((a : ℕ)
            → (copy_words device (suc k) ptr buf s).0 a ≡ (
                if leb ptr a && ltb a (ptr + suc k * 2)
                then sector lba (w * 2 + (a - ptr))
                else buf a))
  words_lem zero w ptr lba n buf s ready left =
      let last_word : w ≡ 255 = omega arith in
      let (j, lt, busy) = finishes lba n s (rw last_word at ready) in
      rw (copy_words-suc device 0 ptr buf s, copy_words-zero device)
        (
          j,
          lt,
          busy,
          λ a. rw (gives lba n w s ready) (
              store16_lem buf ptr (sector lba (w * 2)) (sector lba (w * 2 + 1)) a
                (bytes lba (w * 2))
              ∙ two_bytes (sector lba) w ptr a (buf a)),
        )
  words_lem (suc k) w ptr lba n buf s ready left =
      let word = (device.insw data_register s).0 in
      let s1 = (device.insw data_register s).1 in
      let (j, lt, busy, rest) =
        words_lem k (w + 1) (ptr + 2) lba n (store16 buf ptr word) s1
          (goes_on lba n w s ready (omega arith)) (omega arith) in
      rw (copy_words-suc device (suc k) ptr buf s) (
        j,
        lt,
        busy,
        λ a.
            rest a
            ∙ rw (gives lba n w s ready) (
                rw
                  (store16_lem buf ptr (sector lba (w * 2)) (sector lba (w * 2 + 1)) a
                    (bytes lba (w * 2)))
                  (more_bytes (sector lba) w k ptr a (buf a))),
      )

  pub sectors_lem :
      (k fuel j ptr lba : ℕ) (buf : ℕ → ℕ) (s : device.State)
      → patience ≤ fuel
      → j < patience
      → Busy j lba k s
      → (buf' : ℕ → ℕ) × (s' : device.State) × (sector_loop device k fuel ptr buf s
          ≡ some (buf', s'))
        × ((a : ℕ)
            → buf' a ≡ (
                if leb ptr a && ltb a (ptr + k * 512)
                then sector (lba + (a - ptr) / 512) ((a - ptr) % 512)
                else buf a))
  unfolding sector_loop Option.bind
  sectors_lem zero fuel j ptr lba buf s enough lt busy = (buf, s, refl, λ a. ground arith)
  sectors_lem (suc k) fuel j ptr lba buf s enough lt busy =
      let (s1, waits, ready) = wait_lem j fuel lba k s (omega arith) busy in
      let (j', lt', busy', first) = words_lem 255 0 ptr lba k buf s1 ready (omega arith) in
      let copied = copy_words device 256 ptr buf s1 in
      let (buf', s', loops, rest) =
        sectors_lem k fuel j' (ptr + 512) (lba + 1) copied.0 copied.1 enough lt' busy' in
      (
        buf',
        s',
        rw waits loops,
        λ a. rest a ∙ rw (first a) (more_sectors sector lba k ptr a (buf a)),
      )
