-- ===== src/Arch/Idt.antt =====
-- kernel/arch/i386/idt/idt.cpp: the interrupt descriptor table. The addresses of the handlers are
-- arguments, and so is the instruction behind `outb`. The load of the table by `idt_load` is not
-- modelled.
pub mod Handlers
use n00b_os.Prelude.{codes, ℕ, zero, suc, ◌+◌, ◌*◌, ◌-◌, List, [], ◌∷◌, set, bit_and, shift_right}
use n00b_os.Arch.Tty.{Terminal, terminal_write}

abbrev pub kernel_code_selector : ℕ
kernel_code_selector = 0x08

abbrev pub noobos_total_interrupts : ℕ
noobos_total_interrupts = 512

pub record IdtDescriptor : Type 0 where
  pub offset_1 : ℕ
  pub selector : ℕ
  pub zero_byte : ℕ
  pub type_attributes : ℕ
  pub offset_2 : ℕ

pub record IdtrDescriptor : Type 0 where
  pub limit : ℕ
  pub base : ℕ

-- `idt_descs`, a table of 512 entries.
abbrev pub IdtTable : Type 0
IdtTable = List IdtDescriptor

unfoldable pub idt_set : IdtTable → ℕ → ℕ → IdtTable
idt_set idt_descs interrupt_number address = set idt_descs interrupt_number (record {
  offset_1 = bit_and address 0x0000FFFF;
  selector = kernel_code_selector;
  zero_byte = 0;
  type_attributes = 0xEE;
  offset_2 = shift_right 16 address;
})

-- `memset` of the whole table, of `k` entries.
unfoldable pub cleared : ℕ → IdtTable
cleared zero = []
cleared (suc k) =
    (record { offset_1 = 0; selector = 0; zero_byte = 0; type_attributes = 0; offset_2 = 0 })
    ∷ cleared k

-- The loop from entry `i` on with `k` rounds left.
unfoldable pub set_all : ℕ → ℕ → ℕ → IdtTable → IdtTable
set_all zero i no_interrupt idt_descs = idt_descs
set_all (suc k) i no_interrupt idt_descs =
    set_all k (i + 1) no_interrupt (idt_set idt_descs i no_interrupt)

-- The table and the register's value, for the table at `idt_descs`.
unfoldable pub idt_init : ℕ → ℕ → ℕ → ℕ → IdtTable × IdtrDescriptor
idt_init idt_descs no_interrupt idt_zero int21h =
    let filled = set_all noobos_total_interrupts 0 no_interrupt (cleared noobos_total_interrupts) in
    (
      idt_set (idt_set filled 0 idt_zero) 0x21 int21h,
      record { limit = noobos_total_interrupts * 8 - 1; base = idt_descs },
    )

abbrev pub master_pic_control_command_io_port : ℕ
master_pic_control_command_io_port = 0x20

abbrev pub pic_end_of_interrupt_command : ℕ
pic_end_of_interrupt_command = 0x20

-- The handlers: the terminal and the devices behind the ports.
module _ {Devices : Type 0} (outb : ℕ → ℕ → Devices → Devices) where
  unfoldable pub no_interrupt_handler : Terminal × Devices → Terminal × Devices
  no_interrupt_handler (t, devices) =
      (t, outb master_pic_control_command_io_port pic_end_of_interrupt_command devices)

  unfoldable pub int21h_handler : Terminal × Devices → Terminal × Devices
  int21h_handler (t, devices) = (
    terminal_write (codes "Keyboard pressed\n") t,
    outb master_pic_control_command_io_port pic_end_of_interrupt_command devices,
  )

-- The controller is not told that the interrupt has ended.
unfoldable pub idt_zero : Terminal → Terminal
idt_zero t = terminal_write (codes "DIVIDE BY 0 ERROR\n") t
