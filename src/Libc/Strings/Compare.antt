-- ===== src/Libc/Strings/Compare.antt =====
-- What the comparing routines of kernel/libc/string.cpp decide. Their last test repeats the one
-- before it, so a first difference where the left character is the greater one goes unseen.
use n00b_os.Prelude.{
  ℕ, zero, suc, ◌+◌, ◌<◌, ◌≡◌, ◌≢◌, ◌↔◌, refl, inl, inr, rounds_small, false, ◌==◌, some, arith,
  Bool-cases, ==_iff, ==_of_ne, List, [], ◌∷◌, length, get_or, All, neg32, slt, sign_extend,
}
use n00b_os.Libc.Ctype.{tolower}
use n00b_os.Libc.Strings.{Str, strncmp, strcasecmp_loop, strcasecmp}

-- The bytes of a text, and the null byte behind them.
abbrev pub view : List ℕ → Str
view s i = get_or s i 0

abbrev pub IsText : List ℕ → Type 0
IsText s = All (λ c. (0 < c) × (c < 256)) s

-- The character as the comparison of file names takes it.
abbrev pub fold_case : ℕ → ℕ
fold_case c = tolower (sign_extend c)

-- As long as each other, and no character of the left below the one of the right.
abbrev pub NowhereBelow : List ℕ → List ℕ → Type 0
NowhereBelow [] [] = Unit
NowhereBelow [] (d ∷ t) = ⊥
NowhereBelow (c ∷ s) [] = ⊥
NowhereBelow (c ∷ s) (d ∷ t) = (slt (fold_case c) (fold_case d) ≡ false) × NowhereBelow s t

strcasecmp_loop_lem :
    (s t : List ℕ) (fuel idx : ℕ) (f g : Str)
    → length s < fuel
    → IsText s
    → IsText t
    → ((i : ℕ) → f (idx + i) ≡ view s i)
    → ((i : ℕ) → g (idx + i) ≡ view t i)
    → (r : ℕ) × (strcasecmp_loop fuel f g idx ≡ some r) × ((r ≡ 0) ↔ NowhereBelow s t)
unfolding strcasecmp_loop
strcasecmp_loop_lem s t zero idx f g enough text_s text_t at_s at_t = absurd (omega arith)
strcasecmp_loop_lem [] [] (suc fuel) idx f g enough text_s text_t at_s at_t =
    (0, ground (arith, at_s 0, at_t 0), (λ _. tt, λ _. refl))
strcasecmp_loop_lem [] (d ∷ t) (suc fuel) idx f g enough text_s text_t at_s at_t =
    (neg32 1, ground (arith, at_s 0, at_t 0), (λ e. cc, λ x. absurd x))
strcasecmp_loop_lem (c ∷ s) [] (suc fuel) idx f g enough text_s text_t at_s at_t =
    (1, ground (arith, at_s 0, at_t 0), (λ e. cc, λ x. absurd x))
strcasecmp_loop_lem (c ∷ s) (d ∷ t) (suc fuel) idx f g enough text_s text_t at_s at_t =
    elim (Bool-cases (slt (fold_case c) (fold_case d))) [
      | inl below ↦ (neg32 1, ground (arith, at_s 0, at_t 0), (λ e. cc, λ x. cc))
      | inr not_below ↦
          let (r, runs, zero_iff) =
            strcasecmp_loop_lem s t fuel (idx + 1) f g (omega arith) text_s.1 text_t.1
              (λ i. ground (arith, at_s (suc i))) (λ i. ground (arith, at_t (suc i))) in
          (r, ground (arith, at_s 0, at_t 0), (λ e. (not_below, zero_iff.0 e), λ x. zero_iff.1 x.1))
    ]

-- On two texts `strcasecmp` ends within the length of the left one, and it returns 0 exactly when
-- they are equally long and no character of the left is below the right one's, case folded: not
-- only on texts that are equal up to case.
pub strcasecmp-eq-zero :
    (s t : List ℕ) (fuel : ℕ)
    → length s < fuel
    → IsText s
    → IsText t
    → (r : ℕ) × (strcasecmp fuel (view s) (view t) ≡ some r) × ((r ≡ 0) ↔ NowhereBelow s t)
unfolding strcasecmp
strcasecmp-eq-zero s t fuel enough text_s text_t =
    strcasecmp_loop_lem s t fuel 0 (view s) (view t) enough text_s text_t (λ i. ground arith)
      (λ i. ground arith)

-- Comparing one character: `strncmp` with the one-letter text of `d`, not a null byte, returns 0
-- exactly for a text whose first character is not below `d`.
pub strncmp_one :
    (f : Str) (d : ℕ)
    → d ≢ 0
    → (strncmp f (view (d ∷ [])) 1 ≡ 0)
      ↔ ((f 0 ≢ 0) × (slt (sign_extend (f 0)) (sign_extend d) ≡ false))
unfolding strncmp
strncmp_one f d ne = rw (rounds_small 1 (omega arith)) (elim (Bool-cases (f 0 == 0)) [
  | inl end ↦ rw (end, ==_of_ne ne) (λ e. cc, λ x. absurd (x.0 ((==_iff (f 0) 0).0 end)))
  | inr more ↦ elim (Bool-cases (slt (sign_extend (f 0)) (sign_extend d))) [
    | inl below ↦ rw (more, ==_of_ne ne, below) (λ e. cc, λ x. cc)
    | inr not_below ↦ rw (more, ==_of_ne ne, not_below) (λ _. (ne_of more, refl), λ _. refl)
  ]
])
  where
    ne_of : (f 0 == 0) ≡ false → f 0 ≢ 0
    ne_of h = ground arith
