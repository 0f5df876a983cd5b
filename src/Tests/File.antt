-- ===== src/Tests/File.antt =====
-- kernel/fs/file.cpp over a file system whose functions all return 0.
use mathlib.Core.Option
use n00b_os.Prelude.{
  ℕ, zero, suc, ◌+◌, ◌≡◌, refl, true, some, none, [], ◌∷◌, get_or, is_neg, neg32, List, slt,
  sign_extend, rounds, arith,
}
use n00b_os.Config.{enomem}
use n00b_os.Disk.{Disk, real_physical, primary, get}
use n00b_os.Libc.Strings.{strncmp}
use n00b_os.Libc.Strings.Compare.{view}
use n00b_os.Fs.File.{
  FileSystem, FileDescriptor, FileTable, file_mode_read, str_2_filemode, get_file_descriptor, fopen,
  fclose, open_on_disk, new_file_descriptor, free_index,
}
use n00b_os.Disk.Streamer.{Allocator}
use n00b_os.Fs.PathParser.{parse}
use n00b_os.Fs.PathParser.Requests.{
  request, request_drive, request_root, request_name, request_part, request_parts,
  parse_with_requests-parse,
}
use n00b_os.Fs.PathParser.RoundTrip.{path_of, named, parse-path_of}
use n00b_os.Fs.File.Descriptors.{finished, then_fclose, IsFull, Calls-keep, fopen_full}
use n00b_os.Fs.File.Modes.{str_2_filemode_lem}

-- The world counts the calls of the file system.
abbrev quiet : FileSystem ℕ
quiet = record {
  open_file = λ d path mode w. some (4096, w + 1);
  read = λ d p block_size num_blocks out w. some (0, w + 1);
  seek = λ p offset whence w. some (0, w + 1);
  stat = λ d p out w. some (0, w + 1);
  close = λ p w. some (0, w + 1);
  resolve = λ d w. some (0, w + 1);
}

-- Always gives the same address.
abbrev steady : Allocator
steady = record { State = ℕ; kzalloc = λ n s. some (4096, s); kfree = λ a s. some s }

abbrev the_disk : Disk
the_disk = record {
  type = real_physical;
  sector_size = 512;
  id = 0;
  fs = 8192;
  fs_private_data = 0;
}

abbrev the_file : FileDescriptor
the_file = record { index = 0; fs = 8192; private_data = 4096; d = primary }

abbrev the_table : FileTable
the_table = some the_file ∷ []

closes : fclose (λ _. quiet) the_table 0 5 ≡ some (0, 6)
unfolding fclose get_file_descriptor is_neg
closes = refl

Calls-keep_example : get_or the_table 0 none ≡ some the_file
Calls-keep_example =
    Calls-keep steady (λ _. quiet) the_disk {w = 5} {w' = 6} 0 the_file refl
      (then_fclose 0 0 closes finished)

the_table-IsFull : IsFull the_table
the_table-IsFull zero lt e = absurd (grind (arith, e))
the_table-IsFull (suc i) lt e = absurd (omega arith)

-- The path "0:/a" on a table of one entry, which is in use.
abbrev the_path : List ℕ
the_path = path_of 0 (b'a' ∷ []) []

parses : parse 1 the_path ≡ some (some (record { drive_number = 0; path = named (b'a' ∷ []) ∷ [] }))
parses =
    parse-path_of 1 0 (b'a' ∷ []) [] (omega arith) (ground arith) tt (omega arith) (omega arith)

refuses :
    fopen steady (λ _. quiet) 1 the_disk the_path (view (b'r' ∷ [])) the_table 6
    ≡ some (neg32 enomem, the_table, 7)
unfolding fopen open_on_disk new_file_descriptor free_index str_2_filemode strncmp slt sign_extend
    rounds is_neg get request_drive request_root request_parts request_part request_name request
    Option.bind
refuses = rw (parse_with_requests-parse steady 1 the_path _ 6 parses) refl

fopen_full_example : (is_neg (neg32 enomem) ≡ true) × (the_table ≡ the_table)
fopen_full_example =
    fopen_full steady (λ _. quiet) the_disk {w = 5} 1 the_path (view (b'r' ∷ [])) (neg32 enomem)
      the_table-IsFull (then_fclose 0 0 closes finished) refuses

str_2_filemode_lem_example : str_2_filemode (view (b'w' ∷ [])) ≡ file_mode_read
str_2_filemode_lem_example = str_2_filemode_lem (view (b'w' ∷ [])) (omega arith) (omega arith)
