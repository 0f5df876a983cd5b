-- ===== src/Fs.antt =====
-- kernel/fs: paths, file descriptors and the FAT16 file system.
pub mod Fat16
pub mod File
pub mod PathParser
