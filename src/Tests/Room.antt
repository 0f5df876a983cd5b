-- ===== src/Tests/Room.antt =====
-- The kernel's heap with nothing in use.
use n00b_os.Prelude.{ℕ, ◌<◌, refl, none, [], arith}
use n00b_os.Heap.FirstFit.{is_free}
use n00b_os.Heap.Kernel.{KernelHeap}
use n00b_os.Heap.Kernel.Room.{HasRoom}

abbrev pub the_kernel_heap : KernelHeap
the_kernel_heap = record {
  kernel_heap = record { table = record { entries = 0; total_entries = 0 }; start_address = 0 };
  strategy = record { create = none; malloc = none; free = none };
}

pub some_room : (n : ℕ) → n < 100 → HasRoom n (λ a. 0)
unfolding is_free
some_room n small = (
  [],
  record { entries = λ i lt. refl; in_table = tt; apart = tt },
  5,
  record { inside = omega arith; free = λ i lt. refl },
)
