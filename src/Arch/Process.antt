-- ===== src/Arch/Process.antt =====
-- kernel/arch/i386/task/process.cpp: loading a program. A pointer is an address, 0 for null, and
-- the processes are a function of the address. The heap and the file systems act on one state, the
-- allocator's. `none` is a call that does not return or that reads through a null pointer.
pub mod Load
pub mod Failures
use mathlib.Core.Option
use n00b_os.Prelude.{
  ℕ, zero, suc, ◌+◌, ◌-◌, ◌*◌, Bool, true, false, not, ◌&&◌, ◌||◌, ◌==◌, if◌then◌else◌, ltb, leb,
  Option, none, some, List, [], ◌∷◌, get_or, set, length, neg32, is_neg, add32, bit_or, min,
}
use n00b_os.Config.{eio, enomem, einval, fs_max_path_size, program_virtual_address, max_processes}
use n00b_os.Disk.{Disk}
use n00b_os.Disk.Streamer.{Allocator}
use n00b_os.Libc.Strings.Compare.{view}
use n00b_os.Fs.File.{FileSystem, FileTable, fopen, fread, fstat, fclose}
use n00b_os.Arch.Paging.{Words, is_present, is_writable, access_from_all, paging_align, paging_map}
use n00b_os.Arch.Task.{Tasks, new_task, free_task}

abbrev pub program_user_program_stack_size : ℕ
program_user_program_stack_size = 1024 * 16

abbrev pub sizeof_process : ℕ
sizeof_process = 4372

-- `allocations` is what stands before the first null pointer of the array.
pub record Process : Type 0 where
  pub pid : ℕ
  pub name : List ℕ
  pub task : ℕ
  pub allocations : List ℕ
  pub phys_mem : ℕ
  pub size : ℕ
  pub stack : ℕ

-- The file's static variables, and what the calls change.
pub record Machine (World : Type 0) : Type 0 where
  pub process_at : ℕ → Process
  pub processes : List ℕ
  pub current_process : ℕ
  pub file_descriptors : FileTable
  pub tasks : Tasks
  pub words : Words
  pub world : World

abbrev pub no_process : Process
no_process = record {
  pid = 0;
  name = [];
  task = 0;
  allocations = [];
  phys_mem = 0;
  size = 0;
  stack = 0;
}

-- The process at `p` becomes `proc`.
abbrev pub set_process : {World : Type 0} → ℕ → Process → Machine World → Machine World
set_process p proc m = record m { process_at = λ q. if q == p then proc else m.process_at q }

unfoldable pub init_process : {World : Type 0} → ℕ → Machine World → Machine World
init_process p m = set_process p no_process m

unfoldable pub get_current_process : {World : Type 0} → Machine World → ℕ
get_current_process m = m.current_process

unfoldable pub get_process : {World : Type 0} → ℕ → Machine World → ℕ
get_process pid m =
    if is_neg pid || leb max_processes pid then neg32 einval else get_or m.processes pid 0

-- The bytes of the first `n` of a string.
abbrev pub take : ℕ → List ℕ → List ℕ
take zero s = []
take (suc n) [] = []
take (suc n) (c ∷ s) = c ∷ take n s

unfoldable pub mmap_binary : {World : Type 0} → ℕ → Machine World → ℕ × Words
mmap_binary p m =
    let proc = m.process_at p in
    let page_directory = (m.tasks.task_at proc.task).page_directory.1.directory_entry in
    let phys_end = paging_align (add32 proc.phys_mem proc.size) in
    let flags = bit_or (bit_or is_present access_from_all) is_writable in
    paging_map page_directory program_virtual_address proc.phys_mem phys_end flags m.words

unfoldable pub mmap_process : {World : Type 0} → ℕ → Machine World → ℕ × Words
unfolding mmap_binary
mmap_process p m = mmap_binary p m

module _ (alloc : Allocator) (fs_at : ℕ → FileSystem alloc.State)
    (filesize_at : ℕ → alloc.State → ℕ) (disk : Disk) where
  open alloc use {State, kzalloc, kfree}

  -- The label `out` of `load_binary`.
  unfoldable pub close_binary : ℕ → ℕ → Machine State → Option (ℕ × Machine State)
  close_binary fd result m =
      Option.map
        (λ (close_result, world).
          (if not (close_result == 0) then close_result else result, record m { world = world }))
        (fclose fs_at m.file_descriptors fd m.world)

  -- `stat` is the address of the local structure, whose size field `filesize_at` reads.
  unfoldable pub load_binary : ℕ → ℕ → List ℕ → ℕ → Machine State → Option (ℕ × Machine State)
  unfolding close_binary Option.bind
  load_binary fuel stat filename p m =
      Option.bind
        (fopen alloc fs_at fuel disk filename (view (b'r' ∷ [])) m.file_descriptors m.world)
        (λ (fd, file_descriptors, w1).
          let m1 = record m { file_descriptors = file_descriptors; world = w1 } in
          if is_neg fd
          then close_binary fd (neg32 eio) m1
          else Option.bind (fstat fs_at file_descriptors fd stat w1) (λ (result, w2).
            let m2 = record m1 { world = w2 } in
            let filesize = filesize_at stat w2 in
            if not (result == 0)
            then close_binary fd result m2
            else Option.bind (kzalloc filesize w2) (λ (program_data_ptr, w3).
              let m3 = record m2 { world = w3 } in
              if program_data_ptr == 0
              then close_binary fd (neg32 enomem) m3
              else Option.bind (fread fs_at file_descriptors program_data_ptr 1 filesize fd w3)
                  (λ (items, w4).
                    let m4 = record m3 { world = w4 } in
                    let loaded : Process = record (m.process_at p) {
                      phys_mem = program_data_ptr;
                      size = filesize;
                    } in
                    if not (items == 1)
                    then close_binary fd (neg32 eio) m4
                    else close_binary fd 0 (set_process p loaded m4)))))

  unfoldable pub load_data : ℕ → ℕ → List ℕ → ℕ → Machine State → Option (ℕ × Machine State)
  unfolding load_binary
  load_data fuel stat filename p m = load_binary fuel stat filename p m

  -- The loop over `allocations`.
  unfoldable pub free_allocations : List ℕ → State → Option State
  unfolding Option.bind
  free_allocations [] s = some s
  free_allocations (a ∷ allocations) s =
      Option.bind (kfree a s) (λ s'. free_allocations allocations s')

  -- `if (p != nullptr) kfree(p);`
  unfoldable pub free_unless_null : ℕ → State → Option State
  free_unless_null p s = if not (p == 0) then kfree p s else some s

  unfoldable pub free_process : ℕ → Machine State → Option (Machine State)
  unfolding free_allocations free_unless_null Option.bind
  free_process p m =
      let proc = m.process_at p in
      let task_freed =
        if not (proc.task == 0)
        then free_task alloc proc.task m.tasks m.words m.world
        else some (m.tasks, m.world) in
      Option.bind task_freed (λ (tasks, s1).
        Option.bind (free_allocations proc.allocations s1) (λ s2.
          Option.bind (free_unless_null proc.phys_mem s2) (λ s3.
            Option.bind (free_unless_null proc.stack s3)
              (λ s4. Option.map (λ s5. record m { tasks = tasks; world = s5 }) (kfree p s4)))))

  -- The label `out` of `load_process`. `proc` is what `*proc` holds.
  unfoldable pub finish_load : ℕ → ℕ → ℕ → Machine State → Option (ℕ × ℕ × Machine State)
  unfolding free_process
  finish_load p result proc m =
      let freed = Option.map (λ m'. (result, proc, m')) (free_process p m) in
      if is_neg result && not (p == 0) then freed else some (result, proc, m)

  -- From the new task on.
  unfoldable pub start_task : ℕ → ℕ → ℕ → Machine State → Option (ℕ × ℕ × Machine State)
  unfolding Option.bind
  start_task p pid proc m =
      Option.bind (new_task alloc m.tasks m.words m.world) (λ (task, sets_proc, tasks, words, s).
        let m1 = record m { tasks = tasks; words = words; world = s } in
        let with_task : Process = record (m.process_at p) { task = task } in
        let m2 = set_process p with_task m1 in
        let (result, words') = mmap_process p m2 in
        let m3 = record m2 { words = words'; processes = set m2.processes pid p } in
        if task == 0 then finish_load p task proc m1 else finish_load p result p m3)

  -- From the stack on.
  unfoldable pub give_stack : List ℕ → ℕ → ℕ → ℕ → Machine State → Option (ℕ × ℕ × Machine State)
  unfolding start_task Option.bind
  give_stack filename p pid proc m =
      Option.bind (kzalloc program_user_program_stack_size m.world) (λ (stack, s3).
        let m3 = record m { world = s3 } in
        let named : Process = record (m3.process_at p) {
          name = take fs_max_path_size filename;
          stack = stack;
          pid = pid;
        } in
        if stack == 0
        then finish_load p (neg32 enomem) proc m3
        else start_task p pid proc (set_process p named m3))

  -- The result, `*proc` behind the call, and the machine.
  unfoldable pub load_process :
      ℕ → ℕ → List ℕ → ℕ → ℕ → Machine State → Option (ℕ × ℕ × Machine State)
  unfolding give_stack init_process Option.bind
  load_process fuel stat filename proc pid m =
      if not (get_process pid m == 0)
      then some (neg32 einval, proc, m)
      else Option.bind (kzalloc sizeof_process m.world) (λ (p, s1).
        let m1 = record m { world = s1 } in
        if p == 0
        then some (neg32 enomem, proc, m1)
        else Option.bind (load_data fuel stat filename p (init_process p m1)) (λ (result, m2).
          if is_neg result
          then finish_load p result proc m2
          else give_stack filename p pid proc m2))
