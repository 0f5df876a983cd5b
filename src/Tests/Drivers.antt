-- ===== src/Tests/Drivers.antt =====
-- kernel/drivers/ata/ata.cpp on a small disk controller, which is busy for two reads of its status at
-- the command and for one between sectors.
use n00b_os.Prelude.{ℕ, ◌+◌, ◌-◌, ◌*◌, ◌/◌, ◌%◌, ◌≡◌, refl, ◌==◌, if◌then◌else◌, ltb, some, arith}
use n00b_os.Drivers.Ata.{Device, read_sector}
use n00b_os.Drivers.Ata.Contract.{sector_of, Follows}
use n00b_os.Drivers.Ata.Protocol.{read_sector_lem}

record Controller : Type 0 where
  register : ℕ → ℕ
  polls : ℕ
  lba : ℕ
  word : ℕ

abbrev the_bytes : ℕ → ℕ → ℕ
the_bytes lba i = (lba * 512 + i) % 251

abbrev set_register : ℕ → ℕ → Controller → Controller
set_register port value s = record s { register = λ q. if q == port then value else s.register q }

abbrev start_command : Controller → Controller
start_command s = record s { polls = 2; lba = sector_of s.register; word = 0 }

abbrev status : Controller → ℕ × Controller
status s = if s.polls == 0 then (8, s) else (0, record s { polls = s.polls - 1 })

abbrev next_word : Controller → ℕ × Controller
next_word s = (
  the_bytes s.lba (s.word * 2) + the_bytes s.lba (s.word * 2 + 1) * 256,
  if s.word == 255
      then record s { lba = s.lba + 1; word = 0; polls = 1 }
      else record s { word = s.word + 1 },
)

abbrev the_controller : Device
the_controller = record {
  State = Controller;
  outb = λ port value s. if port == 0x1F7 then start_command s else set_register port value s;
  insb = λ port s. status s;
  insw = λ port s. next_word s;
}

controller-Follows : Follows the_controller the_bytes 3
controller-Follows = record {
  register = λ q s. s.register q;
  Busy = λ j lba n s. (s.polls ≡ j) × (s.lba ≡ lba) × (s.word ≡ 0);
  Ready = λ lba n w s. (s.lba ≡ lba) × (s.word ≡ w);
  writes = λ port value q s parameter. ground (arith, parameter);
  command = λ s some_count master. (2, omega arith, (refl, refl, refl));
  polls = λ j lba n s busy. ground (arith, busy);
  shows = λ lba n s busy. ground (arith, busy);
  gives = λ lba n w s ready. rw (ready.0, ready.1) refl;
  goes_on = λ lba n w s ready small. ground (arith, ready);
  finishes = λ lba n s ready. (1, omega arith, ground (arith, ready));
}

abbrev idle : Controller
idle = record { register = λ q. 0; polls = 0; lba = 0; word = 0 }

read_sector_lem_example :
    (buf' : ℕ → ℕ) × (s' : Controller) × (read_sector the_controller 3 70000 2 (λ a. 7) idle
      ≡ some (0, buf', s'))
    × ((a : ℕ) → buf' a ≡ (if ltb a (2 * 512) then the_bytes (70000 + a / 512) (a % 512) else 7))
read_sector_lem_example =
    read_sector_lem the_controller the_bytes 3 controller-Follows (λ lba i. omega arith) 3 70000 2
      (λ a. 7) idle (omega arith) (omega arith) (omega arith) (omega arith)
