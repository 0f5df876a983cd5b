-- ===== src/Tests.antt =====
-- The theorems at concrete inputs, and runs of the code on small inputs.
mod Heap
mod Disk
mod Libc
mod Paging
mod Chunk
mod Fs
mod Fat16
mod File
mod Arch
mod Task
mod Process
mod Drivers
mod Kernel
mod Missing
mod Load
mod Mount
mod Path
mod Show
mod Volume
mod Accept
mod Directory
mod Room
mod Seek
