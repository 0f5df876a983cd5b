-- ===== src/Prelude/Lists.antt =====
-- Lists measured and indexed by native numbers, under the library's names.
use Prim.Native.Nat.{ℕ, zero, suc, ◌+◌, ◌<◌}
use mathlib.Core.Path.{◌≡◌, refl, ap, ◌∙◌}
use mathlib.Core.List.{List, [], ◌∷◌, ◌++◌}
use mathlib.Core.Option.{Option, none, some}
use native.Mathlib.Omega.{arith}

module _ {ℓ} {A : Type ℓ} where
  abbrev pub length : List A → ℕ
  length [] = 0
  length (x ∷ xs) = suc (length xs)

  abbrev pub get_or : List A → ℕ → A → A
  get_or [] i d = d
  get_or (x ∷ xs) zero d = x
  get_or (x ∷ xs) (suc i) d = get_or xs i d

  abbrev pub get_elem? : List A → ℕ → Option A
  get_elem? [] i = none
  get_elem? (x ∷ xs) zero = some x
  get_elem? (x ∷ xs) (suc i) = get_elem? xs i

  abbrev pub set : List A → ℕ → A → List A
  set [] i v = []
  set (x ∷ xs) zero v = v ∷ xs
  set (x ∷ xs) (suc i) v = x ∷ set xs i v

  -- Every element has the property; computes to a tuple.
  abbrev pub All {κ} : (A → Type κ) → List A → Type κ
  All P [] = Unit
  All P (x ∷ xs) = P x × All P xs

  pub length-append : (xs ys : List A) → length (xs ++ ys) ≡ length xs + length ys
  length-append [] ys = omega arith
  length-append (x ∷ xs) ys = omega (arith, length-append xs ys)

  -- f p, f (p + 1), …: `n` values.
  abbrev pub tabulate : (ℕ → A) → ℕ → ℕ → List A
  tabulate f p zero = []
  tabulate f p (suc n) = f p ∷ tabulate f (p + 1) n

  pub tabulate-ext :
      (f g : ℕ → A) (n p q : ℕ)
      → ((i : ℕ) → i < n → f (p + i) ≡ g (q + i))
      → tabulate f p n ≡ tabulate g q n
  tabulate-ext f g zero p q h = refl
  tabulate-ext f g (suc n) p q h =
      ground (arith, h 0, tabulate-ext f g n (p + 1) (q + 1) λ i lt. ground (arith, h (suc i)))

  pub tabulate-add :
      (f : ℕ → A) (n k p : ℕ) → tabulate f p (n + k) ≡ tabulate f p n ++ tabulate f (p + n) k
  tabulate-add f zero k p = ground arith
  tabulate-add f (suc n) k p =
      let sum : suc n + k ≡ suc (n + k) = omega arith in
      let start : p + suc n ≡ p + 1 + n = omega arith in rw (sum, start, tabulate-add f n k (p + 1))

  pub length-tabulate : (f : ℕ → A) (p n : ℕ) → length (tabulate f p n) ≡ n
  length-tabulate f p zero = refl
  length-tabulate f p (suc n) = ap suc (length-tabulate f (p + 1) n)

  pub get_or-tabulate :
      (f : ℕ → A) (p n i : ℕ) (default : A) → i < n → get_or (tabulate f p n) i default ≡ f (p + i)
  get_or-tabulate f p zero i default lt = absurd (omega arith)
  get_or-tabulate f p (suc n) zero default lt = ap f (omega arith)
  get_or-tabulate f p (suc n) (suc i) default lt =
      get_or-tabulate f (p + 1) n i default (omega arith) ∙ ap f (omega arith)
