-- ===== src/Arch/Process/Failures.antt =====
-- `load_process` of kernel/arch/i386/task/process.cpp where the program's file does not
-- open.
use mathlib.Core.Option
use n00b_os.Prelude.{
  ℕ, ◌≡◌, ◌≢◌, refl, true, ==_of_ne, ==_refl, some, List, [], ◌∷◌, neg32, is_neg, is_neg_large,
  arith,
}
use n00b_os.Config.{einval}
use n00b_os.Disk.{Disk}
use n00b_os.Disk.Streamer.{Allocator}
use n00b_os.Libc.Strings.Compare.{view}
use n00b_os.Fs.File.{FileSystem, FileTable, fopen, fclose}
use n00b_os.Arch.Process.{
  Machine, init_process, get_process, sizeof_process, close_binary, load_binary, load_data,
  free_process, free_allocations, free_unless_null, finish_load, load_process,
}

module _ (alloc : Allocator) (fs_at : ℕ → FileSystem alloc.State)
    (filesize_at : ℕ → alloc.State → ℕ) (disk : Disk) where
  open alloc use {State, kzalloc, kfree}

  free_new_process :
      (p : ℕ) (m : Machine State) (w : State)
      → kfree p m.world ≡ some w
      → free_process alloc fs_at filesize_at disk p (init_process p m)
        ≡ some (record (init_process p m) { world = w })
  unfolding free_process free_allocations free_unless_null init_process Option.bind
  free_new_process p m w frees = rw (==_refl p, frees)

  load_binary_not_opened :
      (fuel stat : ℕ) (filename : List ℕ) (p fd : ℕ) (fds : FileTable) (w : State)
      (m : Machine State)
      → fopen alloc fs_at fuel disk filename (view (b'r' ∷ [])) m.file_descriptors m.world
        ≡ some (fd, fds, w)
      → is_neg fd ≡ true
      → load_binary alloc fs_at filesize_at disk fuel stat filename p m
        ≡ some (neg32 einval, record m { file_descriptors = fds; world = w })
  unfolding load_binary close_binary fclose Option.bind
  load_binary_not_opened fuel stat filename p fd fds w m opens negative = rw (opens, negative)

  -- If `fopen` fails on the program's file, whatever its error, `load_process` returns -EINVAL, sets
  -- neither `*proc` nor the table, and frees the structure that it has allocated. For a pid that is
  -- free and a request for the structure that is served.
  pub load_process_not_opened :
      (fuel stat : ℕ) (filename : List ℕ) (proc pid p fd : ℕ) (fds : FileTable) (s w w' : State)
      (m : Machine State)
      → get_process pid m ≡ 0
      → kzalloc sizeof_process m.world ≡ some (p, s)
      → p ≢ 0
      → fopen alloc fs_at fuel disk filename (view (b'r' ∷ [])) m.file_descriptors s
        ≡ some (fd, fds, w)
      → is_neg fd ≡ true
      → kfree p w ≡ some w'
      → load_process alloc fs_at filesize_at disk fuel stat filename proc pid m
        ≡ some
            (neg32 einval, proc, init_process p (record m { file_descriptors = fds; world = w' }))
  unfolding load_process load_data init_process finish_load Option.bind
  load_process_not_opened fuel stat filename proc pid p fd fds s w w' m free takes nonzero opens
        negative frees =
      let started = init_process p (record m { world = s }) in
      let fails = load_binary_not_opened fuel stat filename p fd fds w started opens negative in
      let freed = free_new_process p (record m { file_descriptors = fds; world = w }) w' frees in
      rw (free, takes, ==_of_ne nonzero, fails, is_neg_large (neg32 einval) (omega arith), freed)
        refl
