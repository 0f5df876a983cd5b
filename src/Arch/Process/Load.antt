-- ===== src/Arch/Process/Load.antt =====
-- What `load_process` of kernel/arch/i386/task/process.cpp does to the table of processes.
pub mod Binary
pub mod Finish
use mathlib.Core.Option
use n00b_os.Prelude.{
  ℕ, ◌≡◌, ◌≢◌, refl, ap, ◌∙◌, not, ◌&&◌, ◌==◌, ==_of_ne, ==_refl, ==_iff, if◌then◌else◌,
  Option-cases, Option, none, some, List, [], ◌∷◌, inl, inr, set, is_neg, subst, Bool-cases,
  map_outcome,
}
use n00b_os.Disk.{Disk}
use n00b_os.Disk.Streamer.{Allocator}
use n00b_os.Libc.Strings.Compare.{view}
use n00b_os.Fs.File.{FileSystem, FileTable, fopen, fread, fstat}
use n00b_os.Arch.Task.{Tasks, new_task, free_task}
use n00b_os.Arch.Process.{
  Process, Machine, no_process, set_process, init_process, get_process, sizeof_process,
  close_binary, load_binary, load_data, free_process, free_allocations, free_unless_null,
  finish_load, start_task, give_stack, load_process, program_user_program_stack_size,
}
use n00b_os.Arch.Process.Load.Binary.{
  Touches, Touches-trans, Touches-set, Keeps-Touches, load_binary-Keeps,
}
use n00b_os.Arch.Process.Load.Finish.{finish_load_outcome}

-- The outcomes of `load_process`: the call does not return; it registers nothing; or it sets `*proc`
-- and the entry `pid` of the table, which was free, to the new process. No other process changes.
pub data Loaded {World : Type 0} (m : Machine World) (proc pid : ℕ)
    : Option (ℕ × ℕ × Machine World) → Type 0 where
  never : Loaded m proc pid none
  not_registered :
      (r p : ℕ) (m' : Machine World) → Touches p m m' → Loaded m proc pid (some (r, proc, m'))
  registered :
      (r p : ℕ) (m' : Machine World)
      → get_process pid m ≡ 0
      → m'.processes ≡ set m.processes pid p
      → (m'.process_at p).pid ≡ pid
      → ((q : ℕ) → q ≢ p → m'.process_at q ≡ m.process_at q)
      → Loaded m proc pid (some (r, p, m'))

at_p :
    {World : Type 0} (m : Machine World) (p task : ℕ) {pid : ℕ}
    → (m.process_at p).pid ≡ pid
    → ((set_process p (record (m.process_at p) { task = task }) m).process_at p).pid ≡ pid
at_p m p task named = rw (==_refl p) named

module _ (alloc : Allocator) (fs_at : ℕ → FileSystem alloc.State)
    (filesize_at : ℕ → alloc.State → ℕ) (disk : Disk) where
  open alloc use {State, kzalloc, kfree}

  start_task-Loaded :
      (p pid proc : ℕ) (m m' : Machine State)
      → get_process pid m ≡ 0
      → Touches p m m'
      → (m'.process_at p).pid ≡ pid
      → Loaded m proc pid (start_task alloc fs_at filesize_at disk p pid proc m')
  unfolding start_task Option.bind
  start_task-Loaded p pid proc m m' free t named =
      let L = Loaded m proc pid in
      elim (Option-cases (new_task alloc m'.tasks m'.words m'.world)) [
        | inl stuck ↦ rw stuck never
        | inr ((task, sets_proc, tasks, words, s), made) ↦ rw made (elim (Bool-cases (task == 0)) [
          | inl holds ↦ rw holds (
              finish_load_outcome alloc fs_at filesize_at disk L p _ proc _ never (λ tasks w.
                not_registered _ p _ (record { same_table = t.same_table; others = t.others })))
          | inr fails ↦ rw fails (
              finish_load_outcome alloc fs_at filesize_at disk L p _ p _ never (λ tasks w.
                registered _ p _ free (ap (λ ps. set ps pid p) t.same_table) (at_p m' p task named)
                  (Touches-set p _ m m' t).others))
        ])
      ]

  give_stack-Loaded :
      (filename : List ℕ) (p pid proc : ℕ) (m m' : Machine State)
      → get_process pid m ≡ 0
      → Touches p m m'
      → Loaded m proc pid (give_stack alloc fs_at filesize_at disk filename p pid proc m')
  unfolding give_stack Option.bind
  give_stack-Loaded filename p pid proc m m' free t =
      let L = Loaded m proc pid in
      elim (Option-cases (kzalloc program_user_program_stack_size m'.world)) [
        | inl stuck ↦ rw stuck never
        | inr ((stack, s3), takes) ↦ rw takes (
            let still : Touches p m (record m' { world = s3 }) = record {
              same_table = t.same_table;
              others = t.others;
            } in
            elim (Bool-cases (stack == 0)) [
              | inl holds ↦ rw holds (
                  finish_load_outcome alloc fs_at filesize_at disk L p _ proc _ never (λ tasks w.
                    not_registered _ p _ (record { same_table = t.same_table; others = t.others })))
              | inr fails ↦ rw fails (
                  start_task-Loaded p pid proc m _ free (Touches-set p _ m _ still)
                    (rw (==_refl p)))
            ])
      ]

  -- `load_process` sets `*proc` and the entry `pid` of the table to the new process, whose pid it is,
  -- where the entry was free, or it leaves both as they were; in either case the rest of the table
  -- and the structures of all other processes stay. Whatever the heap and the file systems do.
  pub load_process-Loaded :
      (fuel stat : ℕ) (filename : List ℕ) (proc pid : ℕ) (m : Machine State)
      → Loaded m proc pid (load_process alloc fs_at filesize_at disk fuel stat filename proc pid m)
  unfolding load_process load_data init_process Option.bind
  load_process-Loaded fuel stat filename proc pid m =
      let L = Loaded m proc pid in
      let same : (p : ℕ) (w : State) → Touches p m (record m { world = w }) =
        λ p w. record { same_table = refl; others = λ q _. refl } in
      elim (Bool-cases (get_process pid m == 0)) [
        | inr used ↦ rw used (not_registered _ 0 m (same 0 m.world))
        | inl unused ↦ rw unused (elim (Option-cases (kzalloc sizeof_process m.world)) [
          | inl stuck ↦ rw stuck never
          | inr ((p, s1), takes) ↦ rw takes (elim (Bool-cases (p == 0)) [
            | inl holds ↦ rw holds (not_registered _ 0 _ (same 0 s1))
            | inr fails ↦ rw fails (
                let m1 = init_process p (record m { world = s1 }) in
                let cleared = Touches-set p no_process m _ (same p s1) in
                let keeps =
                  load_binary-Keeps alloc fs_at filesize_at disk fuel stat filename p m1 in
                elim (Option-cases
                  (load_binary alloc fs_at filesize_at disk fuel stat filename p m1)) [
                    | inl stuck ↦ rw stuck never
                    | inr ((result, m2), e) ↦ rw e (
                        let t = Touches-trans cleared (Keeps-Touches (result, m2) keeps e) in
                        elim (Bool-cases (is_neg result)) [
                          | inl holds ↦ rw holds (
                              finish_load_outcome alloc fs_at filesize_at disk L p _ proc _ never
                                (λ tasks w.
                                  not_registered _ p _
                                    (record { same_table = t.same_table; others = t.others })))
                          | inr fails ↦ rw fails (
                              give_stack-Loaded filename p pid proc m m2
                                ((==_iff (get_process pid m) 0).0 unused) t)
                        ])
                  ])
          ])
        ])
      ]
