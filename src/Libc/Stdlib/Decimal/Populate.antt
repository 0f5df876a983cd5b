-- ===== src/Libc/Stdlib/Decimal/Populate.antt =====
-- The first loop of itoa of kernel/libc/stdlib.cpp, which writes the digits from the last one on.
use n00b_os.Prelude.{
  ℕ, zero, suc, ◌+◌, ◌/◌, ◌%◌, ◌^◌, ◌<◌, ◌≤◌, ◌≡◌, ◌⊎◌, inl, refl, ap, ◌∙◌, true, false, ==_refl,
  lt→ltb, some, add32, slt, slt_small, sdiv_small, smod_small, arith,
}
use n00b_os.Libc.Memory.{store}
use n00b_os.Libc.Stdlib.{populate_loop}
use n00b_os.Libc.Stdlib.Decimal.Digits.{drop, power, HasDigits, digits_suc}

-- What the first loop of `itoa` writes from `p` on: the digits of `v`, the last one first.
pub record Populated (v p n : ℕ) (buf buf' : ℕ → ℕ) : Type 0 where
  pub digits : HasDigits v n
  pub places : (i : ℕ) → i < n → buf' (p + i) ≡ 0x30 + drop v i % 10
  pub others : (a : ℕ) → (a < p) ⊎ (p + n ≤ a) → buf' a ≡ buf a

Populated-suc :
    (v p n : ℕ) (buf buf' : ℕ → ℕ)
    → 0 < v
    → Populated (v / 10) (p + 1) n (store buf p (0x30 + v % 10)) buf'
    → Populated v p (suc n) buf buf'
Populated-suc v p n buf buf' pos rest = record {
  digits = digits_suc v n rest.digits pos;
  places = place;
  others = λ a out. rest.others a (ground (arith, out)) ∙ ground (arith, out);
}
  where
    place : (i : ℕ) → i < suc n → buf' (p + i) ≡ 0x30 + drop v i % 10
    place zero lt =
        let here : p + 0 ≡ p = omega arith in
        rw here (rest.others p (inl (omega arith)) ∙ rw (==_refl p) refl)
    place (suc i) lt = ap buf' (omega arith) ∙ rest.places i (omega arith)

pub populate_loop_lem :
    (k v p : ℕ) (buf : ℕ → ℕ)
    → v < power k
    → v < 2 ^ 31
    → (n : ℕ) × (buf' : ℕ → ℕ) × (n ≤ k)
      × (populate_loop (suc k) v p buf ≡ some (buf', p + n))
      × Populated v p n buf buf'
unfolding populate_loop
populate_loop_lem k zero p buf bound small =
    let ends : slt 0 0 ≡ false = slt_small 0 0 (omega arith) (omega arith) in
    let same : p + 0 ≡ p = omega arith in
    (
      0,
      buf,
      omega arith,
      rw (ends, same) refl,
      record {
        digits = record { all = refl; no_zero = λ i lt. absurd (omega arith) };
        places = λ i lt. absurd (omega arith);
        others = λ a out. refl;
      },
    )
populate_loop_lem zero (suc u) p buf bound small = absurd (omega arith)
populate_loop_lem (suc k) (suc u) p buf bound small =
    let v = suc u in
    let char = 0x30 + v % 10 in
    let (n, buf', le, loops, rest) =
      populate_loop_lem k (v / 10) (p + 1) (store buf p char) (omega arith) (omega arith) in
    let more : slt 0 v ≡ true = slt_small 0 v (omega arith) small ∙ lt→ltb 0 v (omega arith) in
    let byte : add32 0x30 (v % 10) % 256 ≡ char = omega arith in
    let behind : p + 1 + n ≡ p + suc n = omega arith in
    (
      suc n,
      buf',
      omega arith,
      rw (smod_small v 10 small, sdiv_small v 10 small, byte, more) (rw behind at loops),
      Populated-suc v p n buf buf' (omega arith) rest,
    )
