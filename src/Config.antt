-- ===== src/Config.antt =====
-- The constants of kernel/config.h and the error numbers of kernel/status.h.
use n00b_os.Prelude.{ℕ, ◌*◌}

abbrev pub heap_size_bytes : ℕ
heap_size_bytes = 1024 * 1024 * 100

abbrev pub heap_block_size : ℕ
heap_block_size = 1024 * 4

abbrev pub heap_address : ℕ
heap_address = 0x01000000

abbrev pub heap_table_address : ℕ
heap_table_address = 0x00007E00

abbrev pub disk_block_size : ℕ
disk_block_size = 512

abbrev pub fs_max_file_descriptors : ℕ
fs_max_file_descriptors = 512

abbrev pub fs_max_filesystems : ℕ
fs_max_filesystems = 512

abbrev pub fs_max_path_size : ℕ
fs_max_path_size = 255

abbrev pub program_virtual_address : ℕ
program_virtual_address = 0x400000

abbrev pub max_processes : ℕ
max_processes = 512

abbrev pub eio : ℕ
eio = 5

abbrev pub enomem : ℕ
enomem = 12

abbrev pub einval : ℕ
einval = 22

abbrev pub erofs : ℕ
erofs = 30

abbrev pub efsnotpresent : ℕ
efsnotpresent = 134
