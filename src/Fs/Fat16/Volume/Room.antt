-- ===== src/Fs/Fat16/Volume/Room.antt =====
-- The kernel's heap of kernel/mm/heap/kheap.cpp as the one that the files of kernel/fs/fat/fat16.cpp are
-- opened and read with: how many blocks are free says which requests it serves.
use n00b_os.Prelude.{arith}
use n00b_os.Heap.Kernel.{KernelHeap}
use n00b_os.Heap.Kernel.Request.{kernel_allocator}
use n00b_os.Heap.Kernel.Room.{HasRoom, kfree-kzalloc-HasRoom, kzalloc-HasRoom}
use n00b_os.Fs.Fat16.Cluster.Chain.{ServesIn}
use n00b_os.Fs.Fat16.Volume.Requests.{ServingIn}

pub kernel_heap-ServesIn : (k : KernelHeap) → ServesIn (kernel_allocator k) (HasRoom 1)
kernel_heap-ServesIn k m room = kfree-kzalloc-HasRoom k 512 m (omega arith) room

pub kernel_heap-ServingIn : (k : KernelHeap) → ServingIn (kernel_allocator k) HasRoom
kernel_heap-ServingIn k n size m small room = kzalloc-HasRoom k n size m small room
