-- ===== src/Arch/Task.antt =====
-- kernel/arch/i386/task/task.cpp: the tasks, a doubly linked list. A pointer is an address, 0 for
-- null, and the structures that the pointers lead to are a function of the address.
pub mod Links
use mathlib.Core.Option
use n00b_os.Prelude.{
  ℕ, ◌+◌, ◌-◌, ◌==◌, not, if◌then◌else◌, Bool, Option, none, some, neg32, is_neg, bit_or,
}
use n00b_os.Config.{eio, enomem, program_virtual_address}
use n00b_os.Disk.Streamer.{Allocator}
use n00b_os.Arch.Paging.{Words, is_present, access_from_all}
use n00b_os.Arch.Paging.Chunk.{PagingChunk, paging_new, paging_free}

pub record Registers : Type 0 where
  pub edi : ℕ
  pub esi : ℕ
  pub ebp : ℕ
  pub ebx : ℕ
  pub edx : ℕ
  pub ecx : ℕ
  pub eax : ℕ
  pub ip : ℕ
  pub cs : ℕ
  pub eflags : ℕ
  pub esp : ℕ
  pub ss : ℕ

abbrev pub sizeof_task : ℕ
sizeof_task = 60

abbrev pub user_data_segment : ℕ
user_data_segment = 0x23

abbrev pub program_virtual_stack_address_start : ℕ
program_virtual_stack_address_start = 0x3FF000

-- `page_directory` points to a chunk: its address and the chunk.
pub record Task : Type 0 where
  pub page_directory : ℕ × PagingChunk
  pub reg : Registers
  pub next : ℕ
  pub prev : ℕ

-- The file's static variables, and the tasks at their addresses.
pub record Tasks : Type 0 where
  pub task_at : ℕ → Task
  pub current : ℕ
  pub tail : ℕ
  pub head : ℕ

abbrev pub update : (ℕ → Task) → ℕ → Task → ℕ → Task
update f p v q = if q == p then v else f q

abbrev pub set_next : ℕ → ℕ → Tasks → Tasks
set_next p next t = record t { task_at = update t.task_at p (record (t.task_at p) { next = next }) }

abbrev pub set_prev : ℕ → ℕ → Tasks → Tasks
set_prev p prev t = record t { task_at = update t.task_at p (record (t.task_at p) { prev = prev }) }

unfoldable pub current_task : Tasks → ℕ
current_task t = t.current

-- `none` is the read through a null `current`.
unfoldable pub get_next_task : Tasks → Option ℕ
get_next_task t =
    if t.current == 0
    then none
    else let next : ℕ = (t.task_at t.current).next in if next == 0 then some t.head else some next

-- What precedes the test for `current`.
unfoldable pub unlink : ℕ → Tasks → Tasks
unlink task t =
    let prev : ℕ = (t.task_at task).prev in
    let next : ℕ = (t.task_at task).next in
    let t1 = if not (prev == 0) then set_next prev next t else t in
    let t2 = if not (next == 0) then set_prev next prev t1 else t1 in
    let t3 = if task == t2.head then record t2 { head = next } else t2 in
    if task == t3.tail then record t3 { tail = prev } else t3

unfoldable pub clear_links : ℕ → Tasks → Tasks
clear_links task t = set_next task 0 (set_prev task 0 t)

unfoldable pub remove_task : ℕ → Tasks → Option Tasks
unfolding unlink
remove_task task t =
    let t4 = unlink task t in
    if task == t4.current
    then Option.map (λ next. clear_links task (record t4 { current = next })) (get_next_task t4)
    else some (clear_links task t4)

-- `memset` of a task.
abbrev pub no_registers : Registers
no_registers = record {
  edi = 0;
  esi = 0;
  ebp = 0;
  ebx = 0;
  edx = 0;
  ecx = 0;
  eax = 0;
  ip = 0;
  cs = 0;
  eflags = 0;
  esp = 0;
  ss = 0;
}

abbrev pub no_task : Task
no_task = record {
  page_directory = (0, record { directory_entry = 0 });
  reg = no_registers;
  next = 0;
  prev = 0;
}

-- What `new_task` does with a task that is set up: the pointer that it returns, and whether it sets
-- `proc->task` to the new task.
unfoldable pub append_task : ℕ → Tasks → ℕ × Bool × Tasks
append_task task t =
    if t.head == 0
    then (0, Bool.false, record t { head = task; tail = task })
    else (task, Bool.true, record (set_prev task t.tail (set_next t.tail task t)) { tail = task })

module _ (alloc : Allocator) where
  open alloc use {State, kzalloc, kfree}

  -- The result, and the task behind the call.
  unfoldable pub init_task : Words → State → Option (ℕ × Task × Words × State)
  init_task w s =
      Option.map
        (λ (chunk, paging_chunk, w', s').
          let made = record no_task { page_directory = (chunk, paging_chunk) } in
          if chunk == 0 then (neg32 eio, made, w', s') else (
            0,
            record made {
              reg = record no_registers {
                ip = program_virtual_address;
                ss = user_data_segment;
                esp = program_virtual_stack_address_start;
              };
            },
            w',
            s',
          ))
        (paging_new alloc (bit_or is_present access_from_all) w s)

  unfoldable pub free_task : ℕ → Tasks → Words → State → Option (Tasks × State)
  unfolding Option.bind
  free_task task t w s =
      Option.bind (paging_free alloc (t.task_at task).page_directory w s)
        (λ s1. Option.bind (remove_task task t) (λ t'. Option.map (λ s2. (t', s2)) (kfree task s1)))

  unfoldable pub new_task : Tasks → Words → State → Option (ℕ × Bool × Tasks × Words × State)
  unfolding Option.bind
  new_task t w s = Option.bind (kzalloc sizeof_task s) (λ (task, s1).
      if task == 0
      then some (neg32 enomem, Bool.false, t, w, s1)
      else Option.bind (init_task w s1) (λ (result, made, w', s2).
        let placed = record t { task_at = update t.task_at task made } in
        if not (result == 0)
        then Option.map (λ (t', s3). (result, Bool.false, t', w', s3)) (free_task task placed w' s2)
        else let (returned, sets_proc, t') = append_task task placed in
          some (returned, sets_proc, t', w', s2)))
