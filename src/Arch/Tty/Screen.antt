-- ===== src/Arch/Tty/Screen.antt =====
-- Where kernel/arch/i386/tty.cpp writes.
use n00b_os.Prelude.{
  ℕ, zero, suc, ◌+◌, ◌<◌, ◌≤◌, ◌≡◌, refl, ◌∙◌, Bool-cases, inl, inr, ◌==◌, leb, List, [], ◌∷◌,
  arith,
}
use n00b_os.Arch.Tty.{
  Terminal, terminal_write_char_at, clear_columns, clear_rows, terminal_initialise, start_again,
  next_line, terminal_write_char, terminal_write, terminal_set_colour,
}

-- The cursor is on the screen, and outside of the screen the memory is `memory`.
pub record InScreen (memory : ℕ → ℕ) (t : Terminal) : Type 0 where
  pub row : t.terminal_row < 25
  pub column : t.terminal_column < 80
  pub outside : (a : ℕ) → 2000 ≤ a → t.terminal_buffer a ≡ memory a

-- The cursor's place and the memory behind the screen, after a write at a cell of the screen.
record Beside (t t' : Terminal) : Type 0 where
  same_row : t'.terminal_row ≡ t.terminal_row
  same_column : t'.terminal_column ≡ t.terminal_column
  same_outside : (a : ℕ) → 2000 ≤ a → t'.terminal_buffer a ≡ t.terminal_buffer a

write_at-Beside :
    (c row column : ℕ) (t : Terminal)
    → row < 25
    → column < 80
    → Beside t (terminal_write_char_at c row column t)
unfolding terminal_write_char_at
write_at-Beside c row column t h k = record {
  same_row = refl;
  same_column = refl;
  same_outside = λ a out. ground arith;
}

Beside-trans : (t t' t'' : Terminal) → Beside t t' → Beside t' t'' → Beside t t''
Beside-trans t t' t'' p q = record {
  same_row = q.same_row ∙ p.same_row;
  same_column = q.same_column ∙ p.same_column;
  same_outside = λ a out. q.same_outside a out ∙ p.same_outside a out;
}

clear_columns-Beside :
    (k y x : ℕ) (t : Terminal) → y < 25 → x + k ≤ 80 → Beside t (clear_columns k y x t)
unfolding clear_columns
clear_columns-Beside zero y x t h fits = record {
  same_row = refl;
  same_column = refl;
  same_outside = λ a out. refl;
}
clear_columns-Beside (suc k) y x t h fits =
    let t' = terminal_write_char_at b' ' y x t in
    Beside-trans t t' (clear_columns k y (x + 1) t') (write_at-Beside b' ' y x t h (omega arith))
      (clear_columns-Beside k y (x + 1) t' h (omega arith))

clear_rows-Beside : (k y : ℕ) (t : Terminal) → y + k ≤ 25 → Beside t (clear_rows k y t)
unfolding clear_rows
clear_rows-Beside zero y t fits = record {
  same_row = refl;
  same_column = refl;
  same_outside = λ a out. refl;
}
clear_rows-Beside (suc k) y t fits =
    let t' = clear_columns 80 y 0 t in
    Beside-trans t t' (clear_rows k (y + 1) t')
      (clear_columns-Beside 80 y 0 t (omega arith) (omega arith))
      (clear_rows-Beside k (y + 1) t' (omega arith))

pub terminal_initialise-InScreen :
    (memory : ℕ → ℕ) (t : Terminal)
    → ((a : ℕ) → 2000 ≤ a → t.terminal_buffer a ≡ memory a)
    → InScreen memory (terminal_initialise t)
unfolding terminal_initialise
terminal_initialise-InScreen memory t outside =
    let cleared = clear_rows-Beside 25 0 _ (omega arith) in
    record {
      row = ground (arith, cleared.same_row);
      column = ground (arith, cleared.same_column);
      outside = λ a out. cleared.same_outside a out ∙ outside a out;
    }

pub terminal_set_colour-InScreen :
    (memory : ℕ → ℕ) (colour : ℕ) (t : Terminal)
    → InScreen memory t
    → InScreen memory (terminal_set_colour colour t)
unfolding terminal_set_colour
terminal_set_colour-InScreen memory colour t h = record {
  row = h.row;
  column = h.column;
  outside = h.outside;
}

start_again-InScreen :
    (memory : ℕ → ℕ) (t : Terminal)
    → t.terminal_column < 80
    → ((a : ℕ) → 2000 ≤ a → t.terminal_buffer a ≡ memory a)
    → InScreen memory (start_again t)
unfolding start_again
start_again-InScreen memory t column outside = elim (Bool-cases (leb 25 t.terminal_row)) [
  | inl full ↦ rw full (terminal_initialise-InScreen memory t outside)
  | inr room ↦ rw room (record { row = ground (arith, room); column = column; outside = outside })
]

terminal_write_char-InScreen :
    (memory : ℕ → ℕ) (c : ℕ) (t : Terminal)
    → InScreen memory t
    → InScreen memory (terminal_write_char c t)
unfolding terminal_write_char next_line
terminal_write_char-InScreen memory c t h = elim (Bool-cases (c == b'\n')) [
  | inl newline ↦ rw newline (start_again-InScreen memory _ (omega arith) h.outside)
  | inr char ↦
      let row = t.terminal_row in
      let column = t.terminal_column in
      let beside = write_at-Beside c row column t h.row h.column in
      rw char (elim (Bool-cases (leb 80 (column + 1))) [
        | inl wraps ↦ rw wraps (
            start_again-InScreen memory _ (omega arith)
              (λ a out. beside.same_outside a out ∙ h.outside a out))
        | inr stays ↦ rw stays (
            start_again-InScreen memory _ (ground (arith, stays))
              (λ a out. beside.same_outside a out ∙ h.outside a out))
      ])
]

-- Whatever is written, from a cursor on the screen: it stays on the screen, in rows below 25 and
-- columns below 80, and no cell of the memory behind the 2000 of the screen changes.
pub terminal_write-InScreen :
    (memory : ℕ → ℕ) (string : List ℕ) (t : Terminal)
    → InScreen memory t
    → InScreen memory (terminal_write string t)
unfolding terminal_write
terminal_write-InScreen memory [] t h = h
terminal_write-InScreen memory (c ∷ string) t h =
    terminal_write-InScreen memory string (terminal_write_char c t)
      (terminal_write_char-InScreen memory c t h)
