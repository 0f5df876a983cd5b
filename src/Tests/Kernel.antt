-- ===== src/Tests/Kernel.antt =====
-- The start of kernel/kernel.cpp from a memory that holds no table.
use n00b_os.Prelude.{◌≡◌, some, none, arith}
use n00b_os.Libc.Memory.{Mem}
use n00b_os.Heap.Kernel.{KernelHeap}
use n00b_os.Arch.Tty.{Terminal}
use n00b_os.Kernel.{Layout, Started, start_kernel}
use n00b_os.Kernel.Start.{IsStarted, start_kernel-IsStarted}

abbrev the_layout : Layout
the_layout = record {
  tss_address = 0x104000;
  gdt_real_address = 0x105000;
  idt_descs_address = 0x106000;
  no_interrupt = 0x100100;
  idt_zero = 0x100200;
  int21h = 0x100300;
}

abbrev before_start : KernelHeap
before_start = record {
  kernel_heap = record { table = record { entries = 0; total_entries = 0 }; start_address = 0 };
  strategy = record { create = none; malloc = none; free = none };
}

abbrev the_terminal : Terminal
the_terminal = record {
  terminal_row = 24;
  terminal_column = 79;
  terminal_colour = 7;
  terminal_buffer = λ a. 0;
}

abbrev the_memory : Mem
the_memory a = 0xCC

start_kernel-IsStarted_example :
    (r : Started) × (start_kernel the_layout before_start the_terminal the_memory ≡ some r)
    × IsStarted the_layout before_start the_terminal the_memory r
start_kernel-IsStarted_example =
    start_kernel-IsStarted the_layout before_start the_terminal the_memory (omega arith)
