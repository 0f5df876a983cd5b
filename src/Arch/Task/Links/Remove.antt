-- ===== src/Arch/Task/Links/Remove.antt =====
-- What `remove_task` of kernel/arch/i386/task/task.cpp does to the list of tasks.
use mathlib.Core.List.{append-nil}
use n00b_os.Prelude.{
  ℕ, ◌≡◌, ◌≢◌, refl, sym, ap, ◌∙◌, inl, inr, not, ◌&&◌, Bool-cases, ◌==◌, ==_of_ne, ==_iff,
  if◌then◌else◌, some, List, [], ◌∷◌, ◌++◌, All, arith,
}
use n00b_os.Arch.Task.{Tasks, unlink, clear_links, remove_task, get_next_task}
use n00b_os.Arch.Task.Links.{
  first, last, IsList, Unlinks, All-at, All-behind, All-last, All-first, Linked-remove, Linked-at,
  Linked-nonzero, last-apart, behind-apart, last-append,
}

-- What `unlink` leaves.
unlink_next :
    (p q : ℕ) (t : Tasks)
    → ((unlink p t).task_at q).next ≡ (
        if not ((t.task_at p).prev == 0) && q == (t.task_at p).prev
        then (t.task_at p).next
        else (t.task_at q).next)
unfolding unlink
unlink_next p q t = ground arith

unlink_prev :
    (p q : ℕ) (t : Tasks)
    → ((unlink p t).task_at q).prev ≡ (
        if not ((t.task_at p).next == 0) && q == (t.task_at p).next
        then (t.task_at p).prev
        else (t.task_at q).prev)
unfolding unlink
unlink_prev p q t = ground arith

unlink_rest :
    (p : ℕ) (t : Tasks)
    → ((unlink p t).head ≡ (if p == t.head then (t.task_at p).next else t.head))
      × ((unlink p t).tail ≡ (if p == t.tail then (t.task_at p).prev else t.tail))
      × ((unlink p t).current ≡ t.current)
unfolding unlink
unlink_rest p t = ground arith

cleared_links :
    (p q : ℕ) (t : Tasks)
    → (((clear_links p t).task_at q).next ≡ (if q == p then 0 else (t.task_at q).next))
      × (((clear_links p t).task_at q).prev ≡ (if q == p then 0 else (t.task_at q).prev))
unfolding clear_links
cleared_links p q t = ground arith

clear_links_rest :
    (p : ℕ) (t : Tasks)
    → ((clear_links p t).head ≡ t.head)
      × ((clear_links p t).tail ≡ t.tail)
      × ((clear_links p t).current ≡ t.current)
unfolding clear_links
clear_links_rest p t = (refl, refl, refl)

unlink-Unlinks :
    (p c : ℕ) (t : Tasks) (x y : ℕ)
    → (t.task_at p).prev ≡ x
    → (t.task_at p).next ≡ y
    → p ≢ x
    → p ≢ y
    → Unlinks t.task_at (clear_links p (record (unlink p t) { current = c })).task_at x p y
unlink-Unlinks p c t x y prev next not_x not_y =
    let u = record (unlink p t) { current = c } in
    record {
      next_x = λ h. ground (arith, cleared_links p x u, unlink_next p x t);
      prev_y = λ h. ground (arith, cleared_links p y u, unlink_prev p y t);
      other_next = λ q h k. ground (arith, cleared_links p q u, unlink_next p q t);
      other_prev = λ q h k. ground (arith, cleared_links p q u, unlink_prev p q t);
    }

head_after :
    (t : Tasks) (p : ℕ) (xs ys : List ℕ)
    → IsList t (xs ++ p ∷ ys)
    → (if p == t.head then first ys else t.head) ≡ first (xs ++ ys)
head_after t p [] ys l = ground (arith, l.head)
head_after t p (x ∷ xs) ys l =
    let apart = All-at (λ q. q ≢ x) xs p ys l.linked.3 in ground (arith, l.head, apart)

tail_after :
    (t : Tasks) (p : ℕ) (xs ys : List ℕ)
    → IsList t (xs ++ p ∷ ys)
    → (if p == t.tail then last 0 xs else t.tail) ≡ last 0 (xs ++ ys)
tail_after t p xs [] l = ground (arith, l.tail, last-append 0 xs p [], ap (last 0) (append-nil xs))
tail_after t p xs (y ∷ ys) l =
    let apart = behind-apart t.task_at 0 p xs (y ∷ ys) l.linked in
    let end = All-last (λ q. q ≢ p) y ys [] apart.0 (rw (append-nil ys) apart.1) in
    ground (arith, l.tail, last-append 0 xs p (y ∷ ys), last-append 0 xs y ys, end)

-- Who runs after `p` leaves its place between `xs` and `ys`: the next in the list, the first at its
-- end.
abbrev pub successor : List ℕ → List ℕ → ℕ
successor xs [] = first xs
successor xs (y ∷ ys) = y

current_after :
    (t : Tasks) (p : ℕ) (xs ys : List ℕ)
    → IsList t (xs ++ p ∷ ys)
    → t.current ≡ p
    → get_next_task (unlink p t) ≡ some (successor xs ys)
unfolding get_next_task
current_after t p xs ys l is_current =
    let links = Linked-at t.task_at 0 p xs ys l.linked in
    let not_prev = last-apart t.task_at 0 p xs ys l.linked links.2 in
    let same : (unlink p t).current ≡ p = (unlink_rest p t).2 ∙ is_current in
    let next : ((unlink p t).task_at p).next ≡ first ys =
      ground (arith, unlink_next p p t, links, not_prev) in
    let head : (unlink p t).head ≡ first (xs ++ ys) =
      ground (arith, unlink_rest p t, links, head_after t p xs ys l) in
    rw (same, ==_of_ne links.2, next, head) (wraps xs ys (behind-nonzero xs ys l))
  where
    wraps :
        (xs ys : List ℕ)
        → All (λ q. q ≢ 0) ys
        → (if first ys == 0 then some (first (xs ++ ys)) else some (first ys))
          ≡ some (successor xs ys)
    wraps xs [] h = rw (append-nil xs)
    wraps xs (y ∷ ys) h = rw (==_of_ne h.0)

    behind-nonzero : (xs ys : List ℕ) → IsList t (xs ++ p ∷ ys) → All (λ q. q ≢ 0) ys
    behind-nonzero xs ys l =
        All-behind (λ q. q ≢ 0) xs p ys (Linked-nonzero t.task_at 0 (xs ++ p ∷ ys) l.linked)

-- The list and the current task once the pointer to the current one is settled.
unlink-IsList :
    (t : Tasks) (p c : ℕ) (xs ys : List ℕ)
    → IsList t (xs ++ p ∷ ys)
    → IsList (clear_links p (record (unlink p t) { current = c })) (xs ++ ys)
unlink-IsList t p c xs ys l =
    let links = Linked-at t.task_at 0 p xs ys l.linked in
    let t' = clear_links p (record (unlink p t) { current = c }) in
    let not_prev = last-apart t.task_at 0 p xs ys l.linked links.2 in
    let apart = behind-apart t.task_at 0 p xs ys l.linked in
    let not_next : p ≢ first ys =
      λ e. All-first (λ q. q ≢ p) ys (λ e'. links.2 (sym e')) apart (sym e) in
    let u = unlink-Unlinks p c t (last 0 xs) (first ys) links.0 links.1 not_prev not_next in
    let cleared = record (unlink p t) { current = c } in
    record {
      head =
          ground
            (arith, clear_links_rest p cleared, unlink_rest p t, links, head_after t p xs ys l);
      tail =
          ground
            (arith, clear_links_rest p cleared, unlink_rest p t, links, tail_after t p xs ys l);
      linked =
          Linked-remove t.task_at t'.task_at 0 p xs ys u
            (Linked-nonzero t.task_at 0 (xs ++ p ∷ ys) l.linked) l.linked;
    }

-- `remove_task` of a task anywhere in the list succeeds and leaves the list of the others in their
-- order; if the task was the current one, the one behind it becomes current, or the first where there
-- is none behind it, and else the current one stays.
pub remove_task-IsList :
    (t : Tasks) (p : ℕ) (xs ys : List ℕ)
    → IsList t (xs ++ p ∷ ys)
    → (t' : Tasks) × (remove_task p t ≡ some t')
      × IsList t' (xs ++ ys)
      × (t'.current ≡ (if p == t.current then successor xs ys else t.current))
unfolding remove_task
remove_task-IsList t p xs ys l = elim (Bool-cases (p == t.current)) [
  | inl is_current ↦
      let c = successor xs ys in
      let same : t.current ≡ p = sym ((==_iff p t.current).0 is_current) in
      (
        clear_links p (record (unlink p t) { current = c }),
        rw ((unlink_rest p t).2, is_current, current_after t p xs ys l same),
        unlink-IsList t p c xs ys l,
        rw is_current (clear_links_rest p (record (unlink p t) { current = c })).2,
      )
  | inr other ↦ (
    clear_links p (unlink p t),
    rw ((unlink_rest p t).2, other),
    unlink-IsList t p (unlink p t).current xs ys l,
    rw other ((clear_links_rest p (unlink p t)).2 ∙ (unlink_rest p t).2),
  )
]
