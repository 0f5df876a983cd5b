-- ===== src/Arch/Task/Links/Append.antt =====
-- What the end of `new_task` in kernel/arch/i386/task/task.cpp does to the list of tasks.
use mathlib.Core.List.{append-nil}
use n00b_os.Prelude.{
  ℕ, ◌≡◌, ◌≢◌, refl, sym, ap, ◌∙◌, inl, inr, false, not, Bool-cases, ◌==◌, ==_of_ne, ==_refl,
  ==_iff, if◌then◌else◌, List, [], ◌∷◌, ◌++◌, All,
}
use n00b_os.Arch.Task.{Task, Tasks, set_next, set_prev, append_task}
use n00b_os.Arch.Task.Links.{first, last, Linked, IsList, All-last, last-append}

Linked-append :
    (at at' : ℕ → Task) (prev p : ℕ) (ts : List ℕ)
    → Linked at prev ts
    → All (λ q. q ≢ p) ts
    → p ≢ 0
    → ((at' p).prev ≡ last prev ts) × ((at' p).next ≡ 0)
    → (ts ≢ [] → (at' (last prev ts)).next ≡ p)
    → ((q : ℕ) → q ≢ p → (at' q).prev ≡ (at q).prev)
    → ((q : ℕ) → q ≢ p → q ≢ last prev ts → (at' q).next ≡ (at q).next)
    → Linked at' prev (ts ++ p ∷ [])
Linked-append at at' prev p [] l apart nz new end prevs nexts = (nz, new.0, new.1, tt, tt)
Linked-append at at' prev p (z ∷ []) l apart nz new end prevs nexts = (
  l.0,
  prevs z apart.0 ∙ l.1,
  end (λ e. cc),
  ((λ e. apart.0 (sym e)), tt),
  (nz, new.0, new.1, tt, tt),
)
Linked-append at at' prev p (z ∷ (w ∷ ts)) l apart nz new end prevs nexts =
    let not_last : z ≢ last w ts =
      λ e. All-last (λ q. q ≢ z) w ts [] l.3.0 (rw (append-nil ts) l.3.1) (sym e) in
    (
      l.0,
      prevs z apart.0 ∙ l.1,
      nexts z apart.0 not_last ∙ l.2,
      All-append z (w ∷ ts) l.3 (λ e. apart.0 (sym e)),
      Linked-append at at' z p (w ∷ ts) l.4 apart.1 nz new (λ e. end (λ e'. cc)) prevs nexts,
    )
  where
    All-append :
        (z : ℕ) (ts : List ℕ) → All (λ q. q ≢ z) ts → p ≢ z → All (λ q. q ≢ z) (ts ++ p ∷ [])
    All-append z [] h k = (k, tt)
    All-append z (q ∷ ts) h k = (h.0, All-append z ts h.1 k)

appended : ℕ → ℕ → Tasks → ℕ → Task
appended p tail t = (set_prev p tail (set_next tail p t)).task_at

appended_new :
    (p tail : ℕ) (t : Tasks)
    → p ≢ tail
    → ((appended p tail t p).prev ≡ tail) × ((appended p tail t p).next ≡ (t.task_at p).next)
unfolding appended
appended_new p tail t apart = rw (==_refl p, ==_of_ne apart) (refl, refl)

appended_end : (p tail : ℕ) (t : Tasks) → p ≢ tail → (appended p tail t tail).next ≡ p
unfolding appended
appended_end p tail t apart = rw (==_of_ne (λ e. apart (sym e)), ==_refl tail) refl

appended_prev :
    (p tail : ℕ) (t : Tasks) (q : ℕ) → q ≢ p → (appended p tail t q).prev ≡ (t.task_at q).prev
unfolding appended
appended_prev p tail t q apart = rw (==_of_ne apart) (elim (Bool-cases (q == tail)) [
  | inl at_end ↦ rw at_end (ap (λ i. (t.task_at i).prev) (sym ((==_iff q tail).0 at_end)))
  | inr elsewhere ↦ rw elsewhere refl
])

appended_next :
    (p tail : ℕ) (t : Tasks) (q : ℕ)
    → q ≢ p
    → q ≢ tail
    → (appended p tail t q).next ≡ (t.task_at q).next
unfolding appended
appended_next p tail t q apart elsewhere = rw (==_of_ne apart, ==_of_ne elsewhere) refl

-- `append_task` puts a new task, whose links are null, at the end of the list. It returns the pointer
-- to it and sets the task of the process, except for the first task of all: there it returns the null
-- pointer and does not.
pub append_task-IsList :
    (t : Tasks) (p : ℕ) (ts : List ℕ)
    → IsList t ts
    → p ≢ 0
    → All (λ q. q ≢ p) ts
    → (t.task_at p).next ≡ 0
    → (t.task_at p).prev ≡ 0
    → IsList (append_task p t).2 (ts ++ p ∷ [])
      × ((append_task p t).0 ≡ (if first ts == 0 then 0 else p))
      × ((append_task p t).1 ≡ not (first ts == 0))
unfolding append_task appended
append_task-IsList t p [] l nz apart next prev =
    rw l.head (record { head = refl; tail = refl; linked = (nz, prev, next, tt, tt) }, refl, refl)
append_task-IsList t p (z ∷ ts) l nz apart next prev =
    let used : (t.head == 0) ≡ false = rw l.head (==_of_ne l.linked.0) in
    let apart_last : last z ts ≢ p =
      All-last (λ q. q ≢ p) z ts [] apart.0 (rw (append-nil ts) apart.1) in
    let apart_tail : p ≢ t.tail = λ e. apart_last (sym (e ∙ l.tail)) in
    let (is_prev, is_next) = appended_new p t.tail t apart_tail in
    rw (used, ==_of_ne l.linked.0)
      (
        record {
          head = l.head;
          tail = sym (last-append 0 (z ∷ ts) p []);
          linked =
              Linked-append t.task_at (appended p t.tail t) 0 p (z ∷ ts) l.linked apart nz
                (is_prev ∙ l.tail, is_next ∙ next)
                (λ _.
                  ap (λ q. (appended p t.tail t q).next) (sym l.tail)
                  ∙ appended_end p t.tail t apart_tail)
                (appended_prev p t.tail t)
                (λ q other not_last. appended_next p t.tail t q other (λ e. not_last (e ∙ l.tail)));
        },
        refl,
        refl,
      )
