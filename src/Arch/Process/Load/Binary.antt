-- ===== src/Arch/Process/Load/Binary.antt =====
-- What reading the program's file in `load_process` of kernel/arch/i386/task/process.cpp may change:
-- nothing in the table of processes, and only the new process among the structures.
use mathlib.Core.Option
use n00b_os.Prelude.{
  ℕ, ◌≡◌, ◌≢◌, refl, ◌∙◌, not, ◌==◌, ==_of_ne, Option-cases, Option, none, some, List, [], ◌∷◌, inl,
  inr, is_neg, subst, Bool-cases, map_outcome,
}
use n00b_os.Disk.{Disk}
use n00b_os.Disk.Streamer.{Allocator}
use n00b_os.Libc.Strings.Compare.{view}
use n00b_os.Fs.File.{FileSystem, FileTable, fopen, fread, fstat}
use n00b_os.Arch.Process.{Process, Machine, set_process, close_binary, load_binary}

-- The machine has the same table of processes, and the same structures but the one at `p`.
pub record Touches {World : Type 0} (p : ℕ) (m m' : Machine World) : Type 0 where
  pub same_table : m'.processes ≡ m.processes
  pub others : (q : ℕ) → q ≢ p → m'.process_at q ≡ m.process_at q

-- A call that at most touches the structure at `p`.
pub data Keeps {World : Type 0} (p : ℕ) (m : Machine World)
    : Option (ℕ × Machine World) → Type 0 where
  hangs : Keeps p m none
  keeps : (r : ℕ) (m' : Machine World) → Touches p m m' → Keeps p m (some (r, m'))

pub Touches-trans :
    {World : Type 0} {p : ℕ} {m m' m'' : Machine World}
    → Touches p m m'
    → Touches p m' m''
    → Touches p m m''
Touches-trans t t' = record {
  same_table = t'.same_table ∙ t.same_table;
  others = λ q other. t'.others q other ∙ t.others q other;
}

pub Touches-set :
    {World : Type 0} (p : ℕ) (proc : Process) (m m' : Machine World)
    → Touches p m m'
    → Touches p m (set_process p proc m')
Touches-set p proc m m' t = record {
  same_table = t.same_table;
  others = λ q other. rw (==_of_ne other) (t.others q other);
}

pub Keeps-Touches :
    {World : Type 0} {p : ℕ} {m : Machine World} {o : Option (ℕ × Machine World)}
    (r : ℕ × Machine World)
    → Keeps p m o
    → o ≡ some r
    → Touches p m r.1
Keeps-Touches r hangs e = absurd (cc)
Keeps-Touches {p = p} {m = m} r (keeps r' m' t) e =
    let same : m' ≡ r.1 = cc in subst (Touches p m) same t

module _ (alloc : Allocator) (fs_at : ℕ → FileSystem alloc.State)
    (filesize_at : ℕ → alloc.State → ℕ) (disk : Disk) where
  open alloc use {State, kzalloc, kfree}

  close_binary-Keeps :
      (p fd result : ℕ) (m m' : Machine State)
      → Touches p m m'
      → Keeps p m (close_binary alloc fs_at filesize_at disk fd result m')
  unfolding close_binary
  close_binary-Keeps p fd result m m' t =
      map_outcome (Keeps p m) hangs
        (λ r _. keeps _ _ (record { same_table = t.same_table; others = t.others }))

  pub load_binary-Keeps :
      (fuel stat : ℕ) (filename : List ℕ) (p : ℕ) (m : Machine State)
      → Keeps p m (load_binary alloc fs_at filesize_at disk fuel stat filename p m)
  unfolding load_binary Option.bind
  load_binary-Keeps fuel stat filename p m =
      let still : (fds : FileTable) (w : State)
          → Touches p m (record m { file_descriptors = fds; world = w }) =
        λ fds w. record { same_table = refl; others = λ q _. refl } in
      let closes : (fds : FileTable) (w : State) (fd r : ℕ)
          → Keeps p m (
              close_binary alloc fs_at filesize_at disk fd r
                (record m { file_descriptors = fds; world = w })) =
        λ fds w fd r. close_binary-Keeps p fd r m _ (still fds w) in
      elim (Option-cases
        (fopen alloc fs_at fuel disk filename (view (b'r' ∷ [])) m.file_descriptors m.world)) [
          | inl stuck ↦ rw stuck hangs
          | inr ((fd, fds, w1), opens) ↦ rw opens (elim (Bool-cases (is_neg fd)) [
            | inl holds ↦ rw holds (closes fds w1 fd _)
            | inr fails ↦ rw fails (elim (Option-cases (fstat fs_at fds fd stat w1)) [
              | inl stuck ↦ rw stuck hangs
              | inr ((r, w2), sized) ↦ rw sized (elim (Bool-cases (not (r == 0))) [
                | inl holds ↦ rw holds (closes fds w2 fd _)
                | inr fails ↦ rw fails (elim (Option-cases (kzalloc (filesize_at stat w2) w2)) [
                  | inl stuck ↦ rw stuck hangs
                  | inr ((data_ptr, w3), takes) ↦ rw takes (elim (Bool-cases (data_ptr == 0)) [
                    | inl holds ↦ rw holds (closes fds w3 fd _)
                    | inr fails ↦
                        rw fails
                          (elim (Option-cases
                            (fread fs_at fds data_ptr 1 (filesize_at stat w2) fd w3)) [
                              | inl stuck ↦ rw stuck hangs
                              | inr ((items, w4), got) ↦
                                  rw got (elim (Bool-cases (not (items == 1))) [
                                    | inl holds ↦ rw holds (closes fds w4 fd _)
                                    | inr fails ↦ rw fails (
                                        close_binary-Keeps p fd 0 m _
                                          (Touches-set p _ m _ (still fds w4)))
                                  ])
                            ])
                  ])
                ])
              ])
            ])
          ])
        ]
