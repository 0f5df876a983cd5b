-- ===== src/Kernel/Start.antt =====
-- What the start of kernel/kernel.cpp leaves: the tables that the processor reads, an empty heap and
-- the terminal.
use mathlib.Core.Option
use n00b_os.Prelude.{
  ℕ, ◌*◌, ◌/◌, ◌<◌, ◌^◌, ◌≡◌, refl, inl, inr, false, ◌==◌, if◌then◌else◌, some, [], map, All,
  get_or, arith, ap,
}
use n00b_os.Config.{heap_table_address}
use n00b_os.Libc.Memory.{Mem, within}
use n00b_os.Heap.Kernel.{KernelHeap}
use n00b_os.Heap.Kernel.Session.{the_heap, after_init, kheap_init-Holds}
use n00b_os.Heap.FirstFit.Live.{Holds}
use n00b_os.Arch.Gdt.{StructuredGdt}
use n00b_os.Arch.Gdt.Decode.{decode, Encodable, table_lem}
use n00b_os.Arch.Idt.{idt_init}
use n00b_os.Arch.Idt.Handlers.{gate, no_gate, idt_init_lem}
use n00b_os.Arch.Tty.{Terminal, terminal_initialise, terminal_set_colour, terminal_write}
use n00b_os.Arch.Tty.Screen.{
  InScreen, terminal_initialise-InScreen, terminal_set_colour-InScreen, terminal_write-InScreen,
}
use n00b_os.Kernel.{
  Layout, Started, no_tss, gdt_kernel_data_selector, gdt_total_segments, sizeof_tss, structured_gdt,
  welcome, start_kernel,
}

-- The segment of the task state.
abbrev pub tss_segment : Layout → StructuredGdt
tss_segment layout = record { base = layout.tss_address; limit = sizeof_tss; access = 0xe9 }

pub record IsStarted (layout : Layout) (k : KernelHeap) (t : Terminal) (m : Mem) (r : Started)
    : Type 0 where
  pub segments : map decode r.gdt_real ≡ structured_gdt layout.tss_address
  pub task_segment :
      get_or (map decode r.gdt_real) (r.registers.task_register / 8) (decode [])
      ≡ tss_segment layout
  pub gates :
      (i : ℕ)
      → i < 512
      → get_or r.idt_descs i no_gate
        ≡ gate (
            if i == 0
            then layout.idt_zero
            else if i == 0x21
            then layout.int21h
            else layout.no_interrupt)
  pub interrupts : r.registers.idtr ≡ record { limit = 4095; base = layout.idt_descs_address }
  pub kernel_stack : (r.tss.esp0 ≡ 0x600000) × (r.tss.ss0 ≡ 0x10)
  pub kernel_heap : r.heap ≡ after_init k
  pub no_allocation : Holds the_heap r.memory []
  pub other_memory : (a : ℕ) → within heap_table_address 25600 a ≡ false → r.memory a ≡ m a
  pub screen : InScreen t.terminal_buffer r.terminal

segments_fit : (tss : ℕ) → tss < 2 ^ 32 → All Encodable (structured_gdt tss)
segments_fit tss small =
    let small_segment : (base limit access : ℕ)
        → base < 2 ^ 32
        → limit < 2 ^ 16
        → Encodable (record { base = base; limit = limit; access = access }) =
      λ base limit access fits lt. record {
        base_fits = fits;
        limit_fits = omega arith;
        limit_granular = inl lt;
      } in
    let whole : (access : ℕ)
        → Encodable (record { base = 0; limit = 0xffffffff; access = access }) =
      λ access. record {
        base_fits = omega arith;
        limit_fits = omega arith;
        limit_granular = inr (omega arith);
      } in
    (
      small_segment 0 0 0 (omega arith) (omega arith),
      (
        whole 0x9a,
        (
          whole 0x92,
          (whole 0xf8, (whole 0xf2, (small_segment tss sizeof_tss 0xe9 small (omega arith), tt))),
        ),
      ),
    )

-- `kernel_main` gets as far as the heap from any memory, any terminal and any state of the heap's
-- variables, and does not panic: the descriptor table that is loaded decodes to the segments of
-- `structured_gdt`, and the task register selects the one of the task state; the 512 gates lead to
-- their handlers; the heap has no allocation and only its table is written; and the cursor is on the
-- screen, outside of which no cell of the video memory changes. For a task state segment at an
-- address of 32 bits.
pub start_kernel-IsStarted :
    (layout : Layout) (k : KernelHeap) (t : Terminal) (m : Mem)
    → layout.tss_address < 2 ^ 32
    → (r : Started) × (start_kernel layout k t m ≡ some r) × IsStarted layout k t m r
unfolding start_kernel Option.bind
start_kernel-IsStarted layout k t m small =
    let (gdt_real, encoded, decoded) =
      table_lem (structured_gdt layout.tss_address) (segments_fit layout.tss_address small) in
    let (memory, inits, holds, kept) = kheap_init-Holds k m in
    let descriptors =
      idt_init_lem layout.idt_descs_address layout.no_interrupt layout.idt_zero layout.int21h in
    let colour = terminal_set_colour 10 (terminal_initialise t) in
    let (idt_descs, idtr) =
      idt_init layout.idt_descs_address layout.no_interrupt layout.idt_zero layout.int21h in
    (
      record {
        terminal = terminal_write welcome colour;
        gdt_real = gdt_real;
        idt_descs = idt_descs;
        tss = record no_tss { esp0 = 0x600000; ss0 = gdt_kernel_data_selector };
        registers = record {
          gdtr = (layout.gdt_real_address, 8 * gdt_total_segments);
          idtr = idtr;
          task_register = 0x28;
        };
        heap = after_init k;
        memory = memory;
      },
      rw (encoded, inits),
      record {
        segments = decoded;
        task_segment = ap (λ ss. get_or ss 5 (decode [])) decoded;
        gates = λ i lt. (descriptors i lt).0;
        interrupts = (descriptors 0 (omega arith)).1;
        kernel_stack = (refl, refl);
        kernel_heap = refl;
        no_allocation = holds;
        other_memory = kept;
        screen = terminal_write-InScreen t.terminal_buffer welcome colour (
            terminal_set_colour-InScreen t.terminal_buffer 10 (terminal_initialise t)
              (terminal_initialise-InScreen t.terminal_buffer t λ a out. refl));
      },
    )
