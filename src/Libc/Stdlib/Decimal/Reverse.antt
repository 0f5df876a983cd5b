-- ===== src/Libc/Stdlib/Decimal/Reverse.antt =====
-- The second loop of itoa of kernel/libc/stdlib.cpp, which reverses the characters.
use n00b_os.Prelude.{
  ℕ, zero, suc, ◌+◌, ◌-◌, ◌*◌, ◌/◌, ◌<◌, ◌≤◌, ◌≡◌, ◌≢◌, ◌⊎◌, inl, inr, refl, ap, ◌∙◌, ==_of_ne,
  ==_refl, ℕ_discrete, arith,
}
use n00b_os.Libc.Memory.{store}
use n00b_os.Libc.Stdlib.{reverse_loop}

-- The round `r` of the loop that reverses exchanges two characters of `n`.
abbrev exchanged : ℕ → ℕ → (ℕ → ℕ) → ℕ → ℕ
exchanged r n buf = store (store buf r (buf (n - r - 1))) (n - r - 1) (buf r)

exchanged_other :
    (r n : ℕ) (buf : ℕ → ℕ) (a : ℕ) → a ≢ r → a ≢ n - r - 1 → exchanged r n buf a ≡ buf a
exchanged_other r n buf a h k = rw (==_of_ne k, ==_of_ne h) refl

exchanged_two :
    (r n : ℕ) (buf : ℕ → ℕ)
    → 2 * (r + 1) ≤ n
    → (exchanged r n buf r ≡ buf (n - r - 1)) × (exchanged r n buf (n - r - 1) ≡ buf r)
exchanged_two r n buf fits =
    let apart : r ≢ n - r - 1 = λ e. omega arith in
    rw (==_of_ne apart, ==_refl r, ==_refl (n - r - 1)) (refl, refl)

-- From round `r` on, `k` of them: what lies outside of the two ends stays, and what lies in them is
-- mirrored.
reverse_loop_lem :
    (k r n : ℕ) (buf : ℕ → ℕ) (a : ℕ)
    → 2 * (r + k) ≤ n
    → (((a < r) ⊎ (n - r ≤ a)) ⊎ ((r + k ≤ a) × (a < n - r - k)) → reverse_loop k r n buf a ≡ buf a)
      × (((r ≤ a) × (a < r + k)) ⊎ ((n - r - k ≤ a) × (a < n - r))
          → reverse_loop k r n buf a ≡ buf (n - 1 - a))
unfolding reverse_loop
reverse_loop_lem zero r n buf a fits = ((λ _. refl), λ ends. absurd (omega (arith, ends)))
reverse_loop_lem (suc k) r n buf a fits =
    let (stays, mirrored) = reverse_loop_lem k (r + 1) n (exchanged r n buf) a (omega arith) in
    let (at_r, at_other) = exchanged_two r n buf (omega arith) in
    (
      (λ out.
          stays (ground (arith, out))
          ∙ exchanged_other r n buf a (λ e. omega (arith, out)) (λ e. omega (arith, out))),
      λ ends. elim (ℕ_discrete a r) [
        | yes first ↦
            stays (inl (inl (omega arith)))
            ∙ ap (exchanged r n buf) first
            ∙ at_r
            ∙ ap buf (omega arith)
        | no not_first ↦ elim (ℕ_discrete a (n - r - 1)) [
          | yes last ↦
              stays (inl (inr (omega arith)))
              ∙ ap (exchanged r n buf) last
              ∙ at_other
              ∙ ap buf (omega arith)
          | no not_last ↦
              mirrored (ground (arith, ends))
              ∙ exchanged_other r n buf (n - 1 - a) (λ e. omega (arith, ends))
                  (λ e. omega (arith, ends))
        ]
      ],
    )

-- The whole buffer of `n` characters.
pub reversed :
    (n : ℕ) (buf : ℕ → ℕ) (a : ℕ) → a < n → reverse_loop (n / 2) 0 n buf a ≡ buf (n - 1 - a)
reversed n buf a lt =
    let (stays, mirrored) = reverse_loop_lem (n / 2) 0 n buf a (omega arith) in
    elim (ℕ_discrete a (n - 1 - a)) [
      | yes middle ↦ stays (inr (omega arith, omega arith)) ∙ ap buf middle
      | no apart ↦ mirrored (ground arith)
    ]
