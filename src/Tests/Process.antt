-- ===== src/Tests/Process.antt =====
-- Loading a program, kernel/arch/i386/task/process.cpp, with file systems that open nothing.
use n00b_os.Prelude.{ℕ, ◌+◌, ◌≡◌, refl, true, some, none, List, [], ◌∷◌, neg32, is_neg, arith}
use n00b_os.Config.{einval, eio}
use n00b_os.Disk.{Disk, real_physical}
use n00b_os.Disk.Streamer.{Allocator}
use n00b_os.Libc.Strings.Compare.{view}
use n00b_os.Libc.Strings.{strlen}
use n00b_os.Fs.PathParser.Requests.{parse_with_requests}
use n00b_os.Fs.PathParser.{validate_path}
use n00b_os.Fs.File.{FileSystem, fopen}
use n00b_os.Arch.Task.{no_task}
use n00b_os.Arch.Process.{Machine, no_process, init_process, get_process, load_process}
use n00b_os.Arch.Process.Load.{Loaded, load_process-Loaded}
use n00b_os.Arch.Process.Failures.{load_process_not_opened}

abbrev the_disk : Disk
the_disk = record { type = real_physical; sector_size = 512; id = 0; fs = 0; fs_private_data = 0 }

-- Gives out one address after the other.
abbrev rising : Allocator
rising = record { State = ℕ; kzalloc = λ n s. some (s, s + 4096); kfree = λ a s. some s }

abbrev no_files : {World : Type 0} → ℕ → FileSystem World
no_files a = record {
  open_file = λ d path mode w. some (neg32 eio, w);
  read = λ d p n k a w. some (neg32 eio, w);
  seek = λ p o m w. some (neg32 eio, w);
  stat = λ d p a w. some (neg32 eio, w);
  close = λ p w. some (neg32 eio, w);
  resolve = λ d w. some (neg32 eio, w);
}

abbrev no_size : {World : Type 0} → ℕ → World → ℕ
no_size a w = 0

abbrev machine_in : {World : Type 0} → World → Machine World
machine_in w = record {
  process_at = λ a. no_process;
  processes = 0 ∷ 0 ∷ [];
  current_process = 0;
  file_descriptors = none ∷ none ∷ [];
  tasks = record { task_at = λ a. no_task; current = 0; tail = 0; head = 0 };
  words = λ a. 0;
  world = w;
}

abbrev the_machine : Machine ℕ
the_machine = machine_in 0x1000000

-- A path that names no drive.
abbrev the_path : List ℕ
the_path = b'x' ∷ []

load_process-Loaded_example :
    Loaded the_machine 0 1
      (load_process rising no_files no_size the_disk 9 0 the_path 0 1 the_machine)
load_process-Loaded_example =
    load_process-Loaded rising no_files no_size the_disk 9 0 the_path 0 1 the_machine

not_opened :
    fopen rising no_files 9 the_disk the_path (view (b'r' ∷ [])) (none ∷ none ∷ []) 0x1001000
    ≡ some (neg32 einval, none ∷ none ∷ [], 0x1001000)
unfolding fopen parse_with_requests strlen validate_path
not_opened = refl

free_pid : get_process 1 the_machine ≡ 0
unfolding get_process is_neg
free_pid = refl

negative : is_neg (neg32 einval) ≡ true
unfolding is_neg
negative = refl

load_process_not_opened_example :
    load_process rising no_files no_size the_disk 9 0 the_path 0 1 the_machine
    ≡ some (neg32 einval, 0, init_process 0x1000000 (record the_machine { world = 0x1001000 }))
load_process_not_opened_example =
    load_process_not_opened rising no_files no_size the_disk 9 0 the_path 0 1 0x1000000
      (neg32 einval) (none ∷ none ∷ []) 0x1001000 0x1001000 0x1001000 the_machine free_pid refl
      (omega arith) not_opened negative refl
