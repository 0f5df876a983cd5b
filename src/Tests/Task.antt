-- ===== src/Tests/Task.antt =====
-- Concrete inputs for the theorems on the list of tasks: tasks at 100, 200 and 300, the one at 200
-- running, and a new one at 400.
use n00b_os.Prelude.{ℕ, ◌≡◌, refl, ◌==◌, not, if◌then◌else◌, some, [], ◌∷◌, arith}
use n00b_os.Arch.Task.{Task, Tasks, no_task, remove_task, append_task}
use n00b_os.Arch.Task.Links.{first, IsList}
use n00b_os.Arch.Task.Links.Remove.{successor, remove_task-IsList}
use n00b_os.Arch.Task.Links.Append.{append_task-IsList}

abbrev the_task : ℕ → Task
the_task a =
    if a == 100
    then record no_task { next = 200; prev = 0 }
    else if a == 200
    then record no_task { next = 300; prev = 100 }
    else if a == 300
    then record no_task { next = 0; prev = 200 }
    else no_task

abbrev three_tasks : Tasks
three_tasks = record { task_at = the_task; current = 200; tail = 300; head = 100 }

three_tasks-IsList : IsList three_tasks (100 ∷ 200 ∷ 300 ∷ [])
three_tasks-IsList = record {
  head = refl;
  tail = refl;
  linked = (
    omega arith,
    refl,
    refl,
    omega arith,
    (omega arith, refl, refl, omega arith, (omega arith, refl, refl, tt, tt)),
  );
}

-- The running task leaves: the one behind it runs.
remove_task-IsList_example :
    (t' : Tasks) × (remove_task 200 three_tasks ≡ some t')
    × IsList t' (100 ∷ 300 ∷ [])
    × (t'.current ≡ (if 200 == 200 then successor (100 ∷ []) (300 ∷ []) else 200))
remove_task-IsList_example =
    remove_task-IsList three_tasks 200 (100 ∷ []) (300 ∷ []) three_tasks-IsList

append_task-IsList_example :
    IsList (append_task 400 three_tasks).2 (100 ∷ 200 ∷ 300 ∷ 400 ∷ [])
    × ((append_task 400 three_tasks).0 ≡ (if first (100 ∷ 200 ∷ 300 ∷ []) == 0 then 0 else 400))
    × ((append_task 400 three_tasks).1 ≡ not (first (100 ∷ 200 ∷ 300 ∷ []) == 0))
append_task-IsList_example =
    append_task-IsList three_tasks 400 (100 ∷ 200 ∷ 300 ∷ []) three_tasks-IsList (omega arith)
      (omega arith) refl refl
