-- ===== src/Libc.antt =====
-- kernel/libc: the freestanding C library of the kernel.
pub mod Ctype
pub mod Memory
pub mod Strings
pub mod Stdlib
