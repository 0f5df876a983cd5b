-- ===== src/Lib.antt =====
-- N00bOS, a small i386 kernel: a verification library beside its C++ code in kernel/.
--
-- The program's parts and the files that model them. A bottom-up reading order is Prelude, Libc,
-- Heap, Disk, Drivers, Arch, Fs, Kernel; Arch/Process uses Fs.
--
-- - Config: kernel/config.h and kernel/status.h, the constants and error numbers.
-- - Libc: kernel/libc. Libc/Memory (memcmp, memcpy, memmove, memset of string.cpp), Libc/Strings
--   (strlen, strcpy, strncpy, strncmp, strcasecmp), Libc/Ctype (isdigit, tolower), Libc/Stdlib
--   (atoi, itoa). What they do is in Libc/Memory/Laws, Libc/Strings/Copy, Libc/Strings/Compare and
--   Libc/Stdlib/Decimal.
-- - Heap: kernel/mm/heap. Heap.antt has the structures of heap.h and heap_utilities.cpp,
--   Heap/Create default_heap_create of heap.cpp, Heap/FirstFit find_first_fit_strategy.cpp
--   (heap_malloc, heap_free and their loops), Heap/Kernel kheap.cpp (kheap_init, kmalloc, kzalloc,
--   kfree). The abstract view of a heap is the list of its live allocations (Heap/FirstFit/Live);
--   the children of Heap/FirstFit have one operation each, Heap/Kernel/Session whole sequences of
--   calls, Heap/Kernel/Request is the heap behind the interface Allocator that its users take, and
--   Heap/Kernel/Room how many more requests it serves.
-- - Disk: kernel/disk. Disk.antt has disk.cpp, Disk/Streamer disk_streamer.cpp, which reads bytes
--   across sectors; it takes the heap through the interface Allocator. Disk/Streamer/Bytes is
--   about the bytes that it delivers.
-- - Drivers: kernel/drivers. Drivers/Ata has ata/ata.cpp, over an interface of port instructions;
--   Drivers/Ata/Contract is the controller's protocol, Drivers/Ata/Transfer and
--   Drivers/Ata/Protocol are about devices that keep to it (the loops, and read_sector as a whole),
--   and Drivers/Ata/Reader has the driver as the disk's sector reader.
-- - Arch: kernel/arch/i386. Arch/Gdt has gdt/gdt.cpp, with what the processor reads from an entry
--   in Arch/Gdt/Decode, Arch/Idt idt/idt.cpp, Arch/Tty tty.cpp and vga.h, Arch/Paging
--   paging/paging.cpp. Arch/Paging/Walk looks entries up as the processor does, Arch/Paging/Map is
--   about regions of pages, Arch/Paging/Align about paging_align; Arch/Paging/Chunk makes, frees
--   and switches to page directories; what is made is in Arch/Paging/Chunk/Table and
--   Arch/Paging/Chunk/Identity. Arch/Task has task/task.cpp, Arch/Task/Links the list that
--   the tasks stand in, Arch/Process task/process.cpp with its outcomes in Arch/Process/Load (Binary
--   for reading the program's file, Finish for how it ends) and Arch/Process/Failures.
-- - Fs: kernel/fs. Fs/PathParser has path_parser.cpp, Fs/File file.cpp (the descriptor table and
--   the calls fopen, fread, fseek, fstat and fclose on the functions of a file system), Fs/Fat16
--   the structures of fat/fat16.cpp, Fs/Fat16/Cluster its way from clusters to bytes
--   (get_fat_entry, get_cluster, read_internal), through Disk/Streamer, Fs/Fat16/Item its
--   items, their names and the calls on an open file, Fs/Fat16/Directory its directories, with the
--   way along a path in its child Lookup (Count for the items of a directory, Load for a
--   subdirectory's, Find for the search in one, Missing for a part that it lacks), and
--   Fs/Fat16/Mount mounting (Accept for the disks that are meant to mount, Resolve for all),
--   Fs/Fat16/Open opening and closing a file. Fs/File/Init has init and load. Where these
--   parts meet is Fs/Fat16/Volume: fat16_fs as the file layer calls it, with Open for fopen, Read
--   for fread, Seek for fseek, Requests and Room for the kernel's heap behind them, Path for files in
--   subdirectories and Boot for the way from init and search_and_initialize to the bytes of a file.
-- - Kernel: kernel/kernel.cpp. Kernel.antt has kernel_main up to the heap, with what it leaves in
--   Kernel/Start, Kernel/Files the part behind it, Kernel/Show the two files that it shows, with
--   the terminal behind the first of them in Kernel/Show/Contents.
-- - Tests: the theorems at concrete inputs, and small runs.
--
-- How state is modelled. Names are those of the source. Memory is a function from the address to
-- the byte (Mem of Libc/Memory), a sector buffer one from the index, text that is only read the
-- list of its bytes before the null byte or a function from the index. Static variables and
-- structures that a function changes are arguments and results of it. A C++ int is its 32-bit
-- pattern, with slt, sdiv, smod and is_neg of Prelude/Words for the signed operations; an error -E
-- is neg32 E. Where addresses are not needed a pointer is an Option, none for null.
--
-- Fuel and bounds. A loop with a counter is a recursion on the rounds left. A loop that may not
-- end takes fuel, and its function's result none, or the outer none of two, is a call that does
-- not return within it: strlen (enough: the length and one), the first
-- loop of itoa (eleven rounds for the ten digits of an int), strcasecmp (the shorter length and
-- one), the loop of parse (one round more than the names behind the first), the loop of
-- disk::streamer::read and of read_internal_from_stream (one round more than the bytes to read,
-- since each round reads at least one), the search of the heap (the size of the table) and its marking
-- loop (one round more than the blocks to mark; Heap/FirstFit/Exhausted is about every number of
-- rounds where it does not end), the count of a directory's items (the items before its end and one) and the
-- wait for the disk controller (the number of reads for which it is busy and one). The theorems
-- that say that a call returns state the fuel or the model gives it.
--
-- Not in the model. Devices lie outside the repository. The disk takes ata::read_sector as an
-- argument, a function from the sector's number, with what it delivers as a named hypothesis;
-- Drivers/Ata/Reader has the driver in its place, on a device that keeps to its protocol. The heap
-- comes as the interface Allocator, of which Heap/Kernel/Request is the kernel's heap; that a heap
-- serves each request is a hypothesis, which the kernel's meets as long as it has room. For fopen,
-- fread and fseek the hypothesis is about the room, and Heap/Kernel/Room and Fs/Fat16/Volume/Room
-- have it for the kernel's heap; mounting, directories, tasks and processes ask for a heap that
-- serves every request.
-- fs::resolve is an argument of search_and_initialize in the same way, and Fs/Fat16/Volume/Boot
-- gives it the one of the file layer. How the processor reads page tables, segment descriptors and
-- gates is written out in Arch/Paging/Walk, Arch/Gdt/Decode and Arch/Idt/Handlers. The assembly
-- files and the linker script are left out. Structures are values
-- beside the addresses at which kzalloc puts them, so that a kfree acts on the heap alone. The
-- parser's value is parse, and Fs/PathParser/Requests has its requests of the heap, with which
-- fopen runs it; a request that gets null and is written through without a test is the outer
-- none. The items of the root directory, which the source stores through a null pointer, change
-- the memory from address 0 on, and are followed as long as they end below the heap's table.
pub mod Prelude
mod Tests
pub mod Config
pub mod Libc
pub mod Heap
pub mod Arch
pub mod Disk
pub mod Drivers
pub mod Fs
pub mod Kernel
