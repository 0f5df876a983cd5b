-- ===== src/Fs/File.antt =====
-- kernel/fs/file.cpp: the file descriptors and the calls on them. A file system's functions take and
-- return the world they act on (memory and disks); a pointer is its address, an `int` its 32-bit
-- pattern. The outer `none` is a call that does not return. The structures of the descriptors are
-- values; that `kzalloc` places them in memory is not modelled.
pub mod Descriptors
pub mod Init
pub mod Modes
use mathlib.Core.Option
use n00b_os.Prelude.{
  codes, ℕ, zero, suc, ◌+◌, ◌-◌, Bool, true, false, ◌&&◌, ◌||◌, ◌==◌, if◌then◌else◌, leb, Option,
  none, some, List, [], ◌∷◌, get_or, set, length, neg32, is_neg,
}
use n00b_os.Config.{eio, einval, enomem, fs_max_file_descriptors}
use n00b_os.Arch.Tty.{Terminal, terminal_write}
use n00b_os.Disk.{Disk, DiskPtr, deref, get}
use n00b_os.Libc.Strings.{Str, strncmp}
use n00b_os.Libc.Strings.Compare.{view}
use n00b_os.Disk.Streamer.{Allocator}
use n00b_os.Fs.PathParser.Requests.{request, parse_with_requests}
use n00b_os.Fs.PathParser.{PathPart, PathRoot, parse}

pub data FileMode : Type 0 where
  file_mode_read : FileMode
  file_mode_write : FileMode
  file_mode_append : FileMode
  file_mode_invalid : FileMode

-- The functions of a file system.
pub record FileSystem (World : Type 0) : Type 0 where
  pub open_file : DiskPtr → List PathPart → FileMode → World → Option (ℕ × World)
  pub read : DiskPtr → ℕ → ℕ → ℕ → ℕ → World → Option (ℕ × World)
  pub seek : ℕ → ℕ → ℕ → World → Option (ℕ × World)
  pub stat : DiskPtr → ℕ → ℕ → World → Option (ℕ × World)
  pub close : ℕ → World → Option (ℕ × World)
  pub resolve : DiskPtr → World → Option (ℕ × World)

-- `fs` is the address of the file system.
pub record FileDescriptor : Type 0 where
  pub index : ℕ
  pub fs : ℕ
  pub private_data : ℕ
  pub d : DiskPtr

-- The 512 entries of `file_descriptors`; a null pointer is `none`.
abbrev pub FileTable : Type 0
FileTable = List (Option FileDescriptor)

unfoldable pub str_2_filemode : Str → FileMode
unfolding strncmp
str_2_filemode str =
    if strncmp str (view (b'r' ∷ [])) 1 == 0
    then file_mode_read
    else if strncmp str (view (b'w' ∷ [])) 1 == 0
    then file_mode_write
    else if strncmp str (view (b'a' ∷ [])) 1 == 0
    then file_mode_append
    else file_mode_invalid

unfoldable pub get_file_descriptor : FileTable → ℕ → Option FileDescriptor
get_file_descriptor file_descriptors fd =
    if is_neg fd || leb fs_max_file_descriptors fd then none else get_or file_descriptors fd none

-- The index that the loop of `new_file_descriptor` takes, with the rest of the table left.
unfoldable pub free_index : FileTable → ℕ → Option ℕ
free_index [] idx = none
free_index (none ∷ rest) idx = some idx
free_index (some _ ∷ rest) idx = free_index rest (idx + 1)

abbrev pub sizeof_file_descriptor : ℕ
sizeof_file_descriptor = 16

-- The result, and where it is 0 the new descriptor's index and the table, in which the caller has
-- set the descriptor's other fields; and what the heap is in. `none` is a request that does not
-- return or that gets null, through which the source writes.
unfoldable pub new_file_descriptor :
    (heap : Allocator)
    → FileTable
    → (ℕ → FileDescriptor)
    → heap.State
    → Option (ℕ × (ℕ × FileTable) × heap.State)
unfolding request
new_file_descriptor heap file_descriptors descriptor w = elim (free_index file_descriptors 0) [
  | none ↦ some (neg32 enomem, (0, file_descriptors), w)
  | some idx ↦
      Option.map (λ (_, w'). (0, (idx, set file_descriptors idx (some (descriptor idx))), w'))
        (request heap sizeof_file_descriptor w)
]

-- The kernel's heap is part of what the file systems' functions change.
module _ (heap : Allocator) (fs_at : ℕ → FileSystem heap.State) where
  open heap use {State}

  -- What `fopen` does with the path and the mode once they are accepted.
  unfoldable pub open_on_disk :
      Disk → DiskPtr → List PathPart → FileMode → FileTable → State → Option (ℕ × FileTable × State)
  unfolding new_file_descriptor Option.bind
  open_on_disk primary_disk d path filemode file_descriptors w =
      let fs = (deref primary_disk d).fs in
      Option.bind ((fs_at fs).open_file d path filemode w) (λ (descriptor_private_data, w').
        if is_neg descriptor_private_data
        then some (descriptor_private_data, file_descriptors, w')
        else Option.map
            (λ (result, made, w'').
              if is_neg result then (result, file_descriptors, w'') else (made.0, made.1, w''))
            (new_file_descriptor heap file_descriptors
              (λ idx. record {
                index = idx;
                fs = fs;
                private_data = descriptor_private_data;
                d = d;
              })
              w'))

  unfoldable pub fopen :
      ℕ → Disk → List ℕ → Str → FileTable → State → Option (ℕ × FileTable × State)
  unfolding Option.bind
  fopen fuel primary_disk filename mode file_descriptors w =
      Option.bind (parse_with_requests heap fuel filename w) λ (root_path, w1). elim root_path [
        | none ↦ some (neg32 einval, file_descriptors, w1)
        | some root ↦ elim root.path [
          | [] ↦ some (neg32 einval, file_descriptors, w1)
          | part ∷ parts ↦ elim (get root.drive_number) [
            | none ↦ some (neg32 eio, file_descriptors, w1)
            | some d ↦
                let opened : FileMode → Option (ℕ × FileTable × State) = λ filemode.
                  open_on_disk primary_disk d (part ∷ parts) filemode file_descriptors w1 in
                if (deref primary_disk d).fs == 0
                then some (neg32 eio, file_descriptors, w1)
                else elim (str_2_filemode mode) [
                  | file_mode_invalid ↦ some (neg32 einval, file_descriptors, w1)
                  | file_mode_read ↦ opened file_mode_read
                  | file_mode_write ↦ opened file_mode_write
                  | file_mode_append ↦ opened file_mode_append
                ]
          ]
        ]
      ]

module _ {World : Type 0} (fs_at : ℕ → FileSystem World) where
  -- `data` is the address of the buffer.
  unfoldable pub fread : FileTable → ℕ → ℕ → ℕ → ℕ → World → Option (ℕ × World)
  fread file_descriptors data_address block_size num_blocks fd w =
      if block_size == 0 || (num_blocks == 0 || is_neg fd)
      then some (neg32 einval, w)
      else elim (get_file_descriptor file_descriptors fd) [
        | none ↦ some (neg32 einval, w)
        | some file_desc ↦
            (fs_at file_desc.fs).read file_desc.d file_desc.private_data block_size num_blocks
              data_address w
      ]

  unfoldable pub fseek : FileTable → ℕ → ℕ → ℕ → World → Option (ℕ × World)
  fseek file_descriptors fd offset whence w =
      if is_neg fd then some (neg32 einval, w) else elim (get_file_descriptor file_descriptors fd) [
        | none ↦ some (neg32 einval, w)
        | some file_desc ↦ (fs_at file_desc.fs).seek file_desc.private_data offset whence w
      ]

  unfoldable pub fstat : FileTable → ℕ → ℕ → World → Option (ℕ × World)
  fstat file_descriptors fd stat w =
      if is_neg fd then some (neg32 einval, w) else elim (get_file_descriptor file_descriptors fd) [
        | none ↦ some (neg32 einval, w)
        | some file_desc ↦ (fs_at file_desc.fs).stat file_desc.d file_desc.private_data stat w
      ]

  -- The table is not an argument of the result: `fclose` does not write it.
  unfoldable pub fclose : FileTable → ℕ → World → Option (ℕ × World)
  fclose file_descriptors fd w =
      if is_neg fd then some (neg32 einval, w) else elim (get_file_descriptor file_descriptors fd) [
        | none ↦ some (neg32 einval, w)
        | some file_desc ↦ (fs_at file_desc.fs).close file_desc.private_data w
      ]

  -- The first file system of the table that accepts the disk, 0 for none.
  unfoldable pub resolve : List ℕ → DiskPtr → World → Option (ℕ × World)
  unfolding Option.bind
  resolve [] d w = some (0, w)
  resolve (filesystem ∷ filesystems) d w =
      if filesystem == 0
      then resolve filesystems d w
      else Option.bind ((fs_at filesystem).resolve d w) (λ (result, w').
        let rest = resolve filesystems d w' in if result == 0 then some (filesystem, w') else rest)

-- The index of the first free entry of `filesystems`.
unfoldable pub get_free_filesystem : List ℕ → ℕ → Option ℕ
get_free_filesystem [] idx = none
get_free_filesystem (fs ∷ filesystems) idx =
    let rest = get_free_filesystem filesystems (idx + 1) in if fs == 0 then some idx else rest

-- What is written where the table is full.
abbrev pub insert_error : List ℕ
insert_error = codes "Error: insert_filesystem\n"

-- The terminal behind the call, and the table, `none` for the endless loop on a full one. `fs` is
-- the file system's address and `name` its name.
unfoldable pub insert_filesystem : List ℕ → ℕ → List ℕ → Terminal → Option (List ℕ) × Terminal
insert_filesystem filesystems fs name t = elim (get_free_filesystem filesystems 0) [
  | none ↦ (none, terminal_write insert_error t)
  | some idx ↦ (some (set filesystems idx fs), terminal_write name t)
]
