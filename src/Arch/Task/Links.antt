-- ===== src/Arch/Task/Links.antt =====
-- The list that the tasks of kernel/arch/i386/task/task.cpp stand in.
pub mod Remove
pub mod Append
use mathlib.Core.Option
use mathlib.Core.List.{append-nil}
use n00b_os.Prelude.{
  ℕ, zero, suc, ◌≡◌, ◌≢◌, refl, sym, ap, ◌∙◌, ◌⊎◌, inl, inr, Bool, true, false, not, ◌&&◌,
  Bool-cases, ◌==◌, ==_of_ne, ==_refl, ==_iff, if◌then◌else◌, Option, none, some, List, [], ◌∷◌,
  ◌++◌, All, arith,
}
use n00b_os.Arch.Task.{
  Task, Tasks, update, set_next, set_prev, unlink, clear_links, remove_task, get_next_task,
  append_task,
}

-- The first task of a list, and the last one behind `prev`; 0 where there is none.
abbrev pub first : List ℕ → ℕ
first [] = 0
first (p ∷ ts) = p

abbrev pub last : ℕ → List ℕ → ℕ
last prev [] = prev
last prev (p ∷ ts) = last p ts

-- The tasks stand in this order behind `prev`, with a null pointer behind the last one.
abbrev pub Linked : (ℕ → Task) → ℕ → List ℕ → Type 0
Linked at prev [] = Unit
Linked at prev (p ∷ ts) =
    (p ≢ 0) × ((at p).prev ≡ prev) × ((at p).next ≡ first ts) × All (λ q. q ≢ p) ts × Linked at p ts

-- The list from `head` to `tail` is `ts`.
pub record IsList (t : Tasks) (ts : List ℕ) : Type 0 where
  pub head : t.head ≡ first ts
  pub tail : t.tail ≡ last 0 ts
  pub linked : Linked t.task_at 0 ts

Linked-ext :
    (at at' : ℕ → Task) (prev : ℕ) (ts : List ℕ)
    → All (λ q. ((at' q).prev ≡ (at q).prev) × ((at' q).next ≡ (at q).next)) ts
    → Linked at prev ts
    → Linked at' prev ts
Linked-ext at at' prev [] same l = tt
Linked-ext at at' prev (p ∷ ts) same l =
    (l.0, same.0.0 ∙ l.1, same.0.1 ∙ l.2, l.3, Linked-ext at at' p ts same.1 l.4)

-- How `remove_task` of `p` between `x` and `y` changes the links.
pub record Unlinks (at at' : ℕ → Task) (x p y : ℕ) : Type 0 where
  pub next_x : x ≢ 0 → (at' x).next ≡ y
  pub prev_y : y ≢ 0 → (at' y).prev ≡ x
  pub other_next : (q : ℕ) → q ≢ p → q ≢ x → (at' q).next ≡ (at q).next
  pub other_prev : (q : ℕ) → q ≢ p → q ≢ y → (at' q).prev ≡ (at q).prev

module _ (P : ℕ → Type 0) where
  All-map : (Q : ℕ → Type 0) (ts : List ℕ) → ((q : ℕ) → P q → Q q) → All P ts → All Q ts
  All-map Q [] f h = tt
  All-map Q (p ∷ ts) f h = (f p h.0, All-map Q ts f h.1)

  All-both : (Q : ℕ → Type 0) (ts : List ℕ) → All P ts → All Q ts → All (λ q. P q × Q q) ts
  All-both Q [] h k = tt
  All-both Q (p ∷ ts) h k = ((h.0, k.0), All-both Q ts h.1 k.1)

  All-remove : (xs : List ℕ) (p : ℕ) (ys : List ℕ) → All P (xs ++ p ∷ ys) → All P (xs ++ ys)
  All-remove [] p ys h = h.1
  All-remove (x ∷ xs) p ys h = (h.0, All-remove xs p ys h.1)

  pub All-at : (xs : List ℕ) (p : ℕ) (ys : List ℕ) → All P (xs ++ p ∷ ys) → P p
  All-at [] p ys h = h.0
  All-at (x ∷ xs) p ys h = All-at xs p ys h.1

  pub All-behind : (xs : List ℕ) (p : ℕ) (ys : List ℕ) → All P (xs ++ p ∷ ys) → All P ys
  All-behind [] p ys h = h.1
  All-behind (x ∷ xs) p ys h = All-behind xs p ys h.1

  pub All-last : (x : ℕ) (xs ys : List ℕ) → P x → All P (xs ++ ys) → P (last x xs)
  All-last x [] ys h k = h
  All-last x (y ∷ xs) ys h k = All-last y xs ys k.0 k.1

  pub All-first : (xs : List ℕ) → P 0 → All P xs → P (first xs)
  All-first [] z h = z
  All-first (x ∷ xs) z h = h.0

-- The list behind the removed task.
Linked-behind :
    {at at' : ℕ → Task} {x p : ℕ} (ts : List ℕ)
    → Unlinks at at' x p (first ts)
    → All (λ q. q ≢ p) ts
    → All (λ q. q ≢ x) ts
    → p ≢ x
    → Linked at p ts
    → Linked at' x ts
Linked-behind [] u apart_p apart_x ne l = tt
Linked-behind {at} {at'} {x} {p} (y ∷ ts) u apart_p apart_x ne l =
    let both = All-both _ _ ts (All-both _ _ ts apart_p.1 apart_x.1) l.3 in
    (
      l.0,
      u.prev_y l.0,
      u.other_next y apart_p.0 apart_x.0 ∙ l.2,
      l.3,
      Linked-ext at at' y ts
          (All-map _ _ ts (λ q h. (u.other_prev q h.0.0 h.1, u.other_next q h.0.0 h.0.1)) both) l.4,
    )

pub Linked-remove :
    (at at' : ℕ → Task) (prev p : ℕ) (xs ys : List ℕ)
    → Unlinks at at' (last prev xs) p (first ys)
    → All (λ q. q ≢ prev) (xs ++ p ∷ ys)
    → Linked at prev (xs ++ p ∷ ys)
    → Linked at' prev (xs ++ ys)
Linked-remove at at' prev p [] ys u apart l = Linked-behind ys u l.3 apart.1 apart.0 l.4
Linked-remove at at' prev p (z ∷ []) ys u apart l =
    let apart_z = l.3 in
    let not_y : z ≢ first ys =
      λ e. All-first (λ q. q ≢ z) ys (λ e'. l.0 (sym e')) apart_z.1 (sym e) in
    (
      l.0,
      u.other_prev z (λ e. apart_z.0 (sym e)) not_y ∙ l.1,
      u.next_x l.0,
      apart_z.1,
      Linked-remove at at' z p [] ys u apart_z l.4,
    )
Linked-remove at at' prev p (z ∷ (w ∷ zs)) ys u apart l =
    let apart_z = l.3 in
    let not_y : z ≢ first ys = λ e.
      All-first (λ q. q ≢ z) ys (λ e'. l.0 (sym e')) (All-behind (λ q. q ≢ z) (w ∷ zs) p ys apart_z)
        (sym e) in
    let not_p : z ≢ p = λ e. All-at (λ q. q ≢ z) (w ∷ zs) p ys apart_z (sym e) in
    let not_x : z ≢ last w zs =
      λ e. All-last (λ q. q ≢ z) w zs (p ∷ ys) apart_z.0 apart_z.1 (sym e) in
    (
      l.0,
      u.other_prev z not_p not_y ∙ l.1,
      u.other_next z not_p not_x ∙ l.2,
      All-remove (λ q. q ≢ z) (w ∷ zs) p ys apart_z,
      Linked-remove at at' z p (w ∷ zs) ys u apart_z l.4,
    )

-- What the links of a task in the list are.
pub Linked-at :
    (at : ℕ → Task) (prev p : ℕ) (xs ys : List ℕ)
    → Linked at prev (xs ++ p ∷ ys)
    → ((at p).prev ≡ last prev xs) × ((at p).next ≡ first ys) × (p ≢ 0)
Linked-at at prev p [] ys l = (l.1, l.2, l.0)
Linked-at at prev p (x ∷ xs) ys l = Linked-at at x p xs ys l.4

pub Linked-nonzero :
    (at : ℕ → Task) (prev : ℕ) (ts : List ℕ) → Linked at prev ts → All (λ q. q ≢ 0) ts
Linked-nonzero at prev [] l = tt
Linked-nonzero at prev (p ∷ ts) l = (l.0, Linked-nonzero at p ts l.4)

pub last-apart :
    (at : ℕ → Task) (prev p : ℕ) (xs ys : List ℕ)
    → Linked at prev (xs ++ p ∷ ys)
    → p ≢ prev
    → p ≢ last prev xs
last-apart at prev p [] ys l ne = ne
last-apart at prev p (x ∷ xs) ys l ne =
    last-apart at x p xs ys l.4 (All-at (λ q. q ≢ x) xs p ys l.3)

pub behind-apart :
    (at : ℕ → Task) (prev p : ℕ) (xs ys : List ℕ)
    → Linked at prev (xs ++ p ∷ ys)
    → All (λ q. q ≢ p) ys
behind-apart at prev p [] ys l = l.3
behind-apart at prev p (x ∷ xs) ys l = behind-apart at x p xs ys l.4

pub last-append :
    (prev : ℕ) (xs : List ℕ) (y : ℕ) (ys : List ℕ) → last prev (xs ++ y ∷ ys) ≡ last y ys
last-append prev [] y ys = refl
last-append prev (x ∷ xs) y ys = last-append x xs y ys
