-- ===== src/Arch/Tty.antt =====
-- kernel/arch/i386/tty.cpp and vga.h: the text terminal. `terminal_buffer` is a function from the
-- index of a cell, the VGA memory; a `char` is its byte.
pub mod Screen
use n00b_os.Prelude.{
  ℕ, zero, suc, ◌+◌, ◌*◌, ◌%◌, Bool, ◌==◌, if◌then◌else◌, leb, List, [], ◌∷◌, bit_or,
}
use n00b_os.Libc.Memory.{store}

abbrev pub vga_width : ℕ
vga_width = 80

abbrev pub vga_height : ℕ
vga_height = 25

abbrev pub vga_colour_black : ℕ
vga_colour_black = 0

abbrev pub vga_colour_light_grey : ℕ
vga_colour_light_grey = 7

unfoldable pub vga_entry_colour : ℕ → ℕ → ℕ
vga_entry_colour fg bg = bit_or fg (bg * 16) % 256

unfoldable pub vga_entry : ℕ → ℕ → ℕ
vga_entry character colour = bit_or character (colour * 256 % 65536)

pub record Terminal : Type 0 where
  pub terminal_row : ℕ
  pub terminal_column : ℕ
  pub terminal_colour : ℕ
  pub terminal_buffer : ℕ → ℕ

unfoldable pub terminal_write_char_at : ℕ → ℕ → ℕ → Terminal → Terminal
terminal_write_char_at character row column t = record t {
  terminal_buffer =
      store t.terminal_buffer (row * vga_width + column) (vga_entry character t.terminal_colour);
}

-- The inner loop from column `x` on, and the outer one from row `y` on, with `k` rounds left.
unfoldable pub clear_columns : ℕ → ℕ → ℕ → Terminal → Terminal
clear_columns zero y x t = t
clear_columns (suc k) y x t = clear_columns k y (x + 1) (terminal_write_char_at b' ' y x t)

unfoldable pub clear_rows : ℕ → ℕ → Terminal → Terminal
clear_rows zero y t = t
clear_rows (suc k) y t = clear_rows k (y + 1) (clear_columns vga_width y 0 t)

unfoldable pub terminal_initialise : Terminal → Terminal
terminal_initialise t = clear_rows vga_height 0 (record {
  terminal_row = 0;
  terminal_column = 0;
  terminal_colour = vga_entry_colour vga_colour_light_grey vga_colour_black;
  terminal_buffer = t.terminal_buffer;
})

-- `if (terminal_row >= VGA_HEIGHT) terminal_initialise();`
unfoldable pub start_again : Terminal → Terminal
start_again t = if leb vga_height t.terminal_row then terminal_initialise t else t

unfoldable pub next_line : Terminal → Terminal
next_line t = record t { terminal_column = 0; terminal_row = t.terminal_row + 1 }

unfoldable pub terminal_write_char : ℕ → Terminal → Terminal
terminal_write_char character t =
    if character == b'\n'
    then start_again (next_line t)
    else let written = terminal_write_char_at character t.terminal_row t.terminal_column t in
      let moved : Terminal = record written { terminal_column = t.terminal_column + 1 } in
      start_again (if leb vga_width moved.terminal_column then next_line moved else moved)

-- The characters of the string, in order.
unfoldable pub terminal_write : List ℕ → Terminal → Terminal
terminal_write [] t = t
terminal_write (c ∷ string) t = terminal_write string (terminal_write_char c t)

unfoldable pub terminal_set_colour : ℕ → Terminal → Terminal
terminal_set_colour colour t = record t { terminal_colour = colour }
