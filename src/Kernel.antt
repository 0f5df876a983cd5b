-- ===== src/Kernel.antt =====
-- kernel/kernel.cpp: how the kernel starts, up to the heap. `none` is `panic`, which does not return.
-- What the instructions behind `gdt_load`, `idt_load` and `tss_load` put into the processor's
-- registers is a record.
pub mod Files
pub mod Show
pub mod Start
use mathlib.Core.Option
use n00b_os.Prelude.{ℕ, ◌*◌, Option, some, List, [], ◌∷◌}
use n00b_os.Libc.Memory.{Mem}
use n00b_os.Heap.Kernel.{KernelHeap, kheap_init}
use n00b_os.Arch.Gdt.{StructuredGdt, structured_gdt_to_gdt}
use n00b_os.Arch.Idt.{IdtTable, IdtrDescriptor, idt_init}
use n00b_os.Arch.Tty.{Terminal, terminal_initialise, terminal_set_colour, terminal_write}

abbrev pub gdt_total_segments : ℕ
gdt_total_segments = 6

abbrev pub gdt_kernel_data_selector : ℕ
gdt_kernel_data_selector = 0x10

abbrev pub sizeof_tss : ℕ
sizeof_tss = 100

pub record Tss : Type 0 where
  pub link : ℕ
  pub esp0 : ℕ
  pub ss0 : ℕ
  pub esp1 : ℕ
  pub esp2 : ℕ
  pub ss2 : ℕ
  pub sr3 : ℕ
  pub eip : ℕ
  pub eflags : ℕ
  pub eax : ℕ
  pub ecx : ℕ
  pub edx : ℕ
  pub ebx : ℕ
  pub esp : ℕ
  pub ebp : ℕ
  pub esi : ℕ
  pub edi : ℕ
  pub es : ℕ
  pub cs : ℕ
  pub ss : ℕ
  pub ds : ℕ
  pub fs : ℕ
  pub gs : ℕ
  pub ldtr : ℕ
  pub iopb : ℕ

-- `memset` of the task state segment.
abbrev pub no_tss : Tss
no_tss = record {
  link = 0;
  esp0 = 0;
  ss0 = 0;
  esp1 = 0;
  esp2 = 0;
  ss2 = 0;
  sr3 = 0;
  eip = 0;
  eflags = 0;
  eax = 0;
  ecx = 0;
  edx = 0;
  ebx = 0;
  esp = 0;
  ebp = 0;
  esi = 0;
  edi = 0;
  es = 0;
  cs = 0;
  ss = 0;
  ds = 0;
  fs = 0;
  gs = 0;
  ldtr = 0;
  iopb = 0;
}

-- The segments, for the task state segment at the address `tss`.
abbrev pub structured_gdt : ℕ → List StructuredGdt
structured_gdt tss =
    (record { base = 0x00; limit = 0x0; access = 0x0 })
    ∷ (record { base = 0x00; limit = 0xffffffff; access = 0x9a })
    ∷ (record { base = 0x00; limit = 0xffffffff; access = 0x92 })
    ∷ (record { base = 0x00; limit = 0xffffffff; access = 0xf8 })
    ∷ (record { base = 0x00; limit = 0xffffffff; access = 0xf2 })
    ∷ (record { base = tss; limit = sizeof_tss; access = 0xe9 })
    ∷ []

-- The text that `panic` leaves on the terminal before it loops for ever.
unfoldable pub panic : List ℕ → Terminal → Terminal
panic message t = terminal_write message (terminal_set_colour 4 t)

-- "Welcome to N00bOS\n"
abbrev pub welcome : List ℕ
welcome =
    b'W' ∷ b'e' ∷ b'l' ∷ b'c' ∷ b'o' ∷ b'm' ∷ b'e' ∷ b' ' ∷ b't' ∷ b'o' ∷ b' ' ∷ b'N' ∷ b'0' ∷ b'0'
    ∷ b'b' ∷ b'O' ∷ b'S' ∷ b'\n' ∷ []

-- The addresses that the linker gives.
pub record Layout : Type 0 where
  pub tss_address : ℕ
  pub gdt_real_address : ℕ
  pub idt_descs_address : ℕ
  pub no_interrupt : ℕ
  pub idt_zero : ℕ
  pub int21h : ℕ

-- The arguments of the loads: the table's address and size, or the selector.
pub record LoadedRegisters : Type 0 where
  pub gdtr : ℕ × ℕ
  pub idtr : IdtrDescriptor
  pub task_register : ℕ

-- The static variables after the start.
pub record Started : Type 0 where
  pub terminal : Terminal
  pub gdt_real : List (List ℕ)
  pub idt_descs : IdtTable
  pub tss : Tss
  pub registers : LoadedRegisters
  pub heap : KernelHeap
  pub memory : Mem

-- `kernel_main` up to `kheap_init`.
unfoldable pub start_kernel : Layout → KernelHeap → Terminal → Mem → Option Started
unfolding Option.bind
start_kernel layout k t m =
    let terminal = terminal_write welcome (terminal_set_colour 10 (terminal_initialise t)) in
    Option.bind (structured_gdt_to_gdt (structured_gdt layout.tss_address)) (λ gdt_real.
      let (idt_descs, idtr) =
        idt_init layout.idt_descs_address layout.no_interrupt layout.idt_zero layout.int21h in
      let tss = record no_tss { esp0 = 0x600000; ss0 = gdt_kernel_data_selector } in
      Option.map
        (λ (heap, memory). record {
          terminal = terminal;
          gdt_real = gdt_real;
          idt_descs = idt_descs;
          tss = tss;
          registers = record {
            gdtr = (layout.gdt_real_address, 8 * gdt_total_segments);
            idtr = idtr;
            task_register = 0x28;
          };
          heap = heap;
          memory = memory;
        })
        (kheap_init k m))
