-- ===== src/Arch/Process/Load/Finish.antt =====
-- How `load_process` of kernel/arch/i386/task/process.cpp ends: it frees a process that failed to
-- load, which leaves the table of processes as it was.
use mathlib.Core.Option
use n00b_os.Prelude.{
  ℕ, not, ◌&&◌, ◌==◌, if◌then◌else◌, Option-cases, Option, none, some, inl, inr, is_neg, Bool-cases,
  map_outcome,
}
use n00b_os.Disk.{Disk}
use n00b_os.Disk.Streamer.{Allocator}
use n00b_os.Fs.File.{FileSystem}
use n00b_os.Arch.Task.{Tasks, free_task}
use n00b_os.Arch.Process.{Machine, free_process, free_allocations, free_unless_null, finish_load}

module _ (alloc : Allocator) (fs_at : ℕ → FileSystem alloc.State)
    (filesize_at : ℕ → alloc.State → ℕ) (disk : Disk) where
  open alloc use {State, kzalloc, kfree}

  free_outcome :
      (P : Option (Machine State) → Type 0) (p : ℕ) (m : Machine State)
      → P none
      → ((tasks : Tasks) (w : State) → P (some (record m { tasks = tasks; world = w })))
      → P (free_process alloc fs_at filesize_at disk p m)
  unfolding free_process Option.bind
  free_outcome P p m n k =
      let proc = m.process_at p in
      let task_freed : Option (Tasks × State) =
        if not (proc.task == 0)
        then free_task alloc proc.task m.tasks m.words m.world
        else some (m.tasks, m.world) in
      elim (Option-cases task_freed) [
        | inl stuck ↦ rw stuck n
        | inr ((tasks, s1), e1) ↦
            rw e1
              (elim (Option-cases
                (free_allocations alloc fs_at filesize_at disk proc.allocations s1)) [
                  | inl stuck ↦ rw stuck n
                  | inr (s2, e2) ↦
                      rw e2
                        (elim (Option-cases
                          (free_unless_null alloc fs_at filesize_at disk proc.phys_mem s2)) [
                            | inl stuck ↦ rw stuck n
                            | inr (s3, e3) ↦
                                rw e3
                                  (elim (Option-cases
                                    (free_unless_null alloc fs_at filesize_at disk proc.stack s3)) [
                                      | inl stuck ↦ rw stuck n
                                      | inr (s4, e4) ↦ rw e4 (map_outcome P n (λ s5 _. k tasks s5))
                                    ])
                          ])
                ])
      ]

  pub finish_load_outcome :
      (P : Option (ℕ × ℕ × Machine State) → Type 0) (p r proc : ℕ) (m : Machine State)
      → P none
      → ((tasks : Tasks) (w : State) → P (some (r, proc, record m { tasks = tasks; world = w })))
      → P (finish_load alloc fs_at filesize_at disk p r proc m)
  unfolding finish_load
  finish_load_outcome P p r proc m n k = elim (Bool-cases (is_neg r && not (p == 0))) [
    | inl holds ↦ rw holds (free_outcome (λ o. P (Option.map (λ m'. (r, proc, m')) o)) p m n k)
    | inr fails ↦ rw fails (k m.tasks m.world)
  ]
