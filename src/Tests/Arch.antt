-- ===== src/Tests/Arch.antt =====
-- Concrete inputs for the theorems on segment descriptors and the terminal.
use mathlib.Core.Option
use n00b_os.Prelude.{◌≡◌, refl, inr, some, [], ◌∷◌, arith}
use n00b_os.Arch.Gdt.{encode_gdt_entry}
use n00b_os.Arch.Gdt.Decode.{decode, decode_lem}
use n00b_os.Arch.Tty.{Terminal, terminal_write}
use n00b_os.Arch.Tty.Screen.{InScreen, terminal_write-InScreen}

-- A segment of the whole 4 GiB.
decode_lem_example :
    Option.map decode
      (encode_gdt_entry (record { base = 0x12345678; limit = 0xFFFFFFFF; access = 0x9A }))
    ≡ some (record { base = 0x12345678; limit = 0xFFFFFFFF; access = 0x9A })
decode_lem_example =
    decode_lem 0x12345678 0xFFFFFFFF 0x9A (omega arith) (omega arith) (inr (omega arith))

-- The last cell of the screen.
abbrev at_the_end : Terminal
at_the_end = record {
  terminal_row = 24;
  terminal_column = 79;
  terminal_colour = 7;
  terminal_buffer = λ a. 0;
}

terminal_write-InScreen_example :
    InScreen (λ a. 0) (terminal_write (b'a' ∷ (b'\n' ∷ (b'b' ∷ []))) at_the_end)
terminal_write-InScreen_example =
    terminal_write-InScreen (λ a. 0) (b'a' ∷ (b'\n' ∷ (b'b' ∷ []))) at_the_end
      (record { row = omega arith; column = omega arith; outside = λ a out. refl })
