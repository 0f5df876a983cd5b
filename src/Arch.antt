-- ===== src/Arch.antt =====
-- kernel/arch/i386: the parts of the kernel that know the machine.
pub mod Gdt
pub mod Idt
pub mod Paging
pub mod Process
pub mod Task
pub mod Tty
