-- ===== src/Fs/File/Init.antt =====
-- How kernel/fs/file.cpp sets up its two tables.
use n00b_os.Prelude.{ℕ, zero, suc, Option, none, List, [], ◌∷◌}
use n00b_os.Config.{fs_max_filesystems}
use n00b_os.Arch.Tty.{Terminal}
use n00b_os.Fs.File.{FileTable, insert_filesystem}
use n00b_os.Fs.Fat16.Volume.{fat16_init}

-- `memset` of the first `k` entries of the descriptors, of 4 bytes each.
unfoldable pub clear_descriptors : ℕ → FileTable → FileTable
clear_descriptors zero t = t
clear_descriptors (suc k) [] = []
clear_descriptors (suc k) (desc ∷ t) = none ∷ clear_descriptors k t

-- `k` null pointers.
unfoldable pub clear_filesystems : ℕ → List ℕ
clear_filesystems zero = []
clear_filesystems (suc k) = 0 ∷ clear_filesystems k

-- The table of the file systems and the terminal; `fs` is the address of `fat16_fs`.
unfoldable pub load : ℕ → Terminal → Option (List ℕ) × Terminal
unfolding insert_filesystem clear_filesystems fat16_init
load fs t =
    let (address, name) = fat16_init fs in
    insert_filesystem (clear_filesystems fs_max_filesystems) address name t

-- `sizeof(file_descriptor)` is 16, the size of 4 of the table's pointers.
unfoldable pub init : ℕ → FileTable → Terminal → FileTable × (Option (List ℕ) × Terminal)
unfolding load clear_descriptors
init fs file_descriptors t = (clear_descriptors 4 file_descriptors, load fs t)
