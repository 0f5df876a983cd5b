-- ===== src/Arch/Gdt.antt =====
-- kernel/arch/i386/gdt/gdt.cpp: segment descriptors. An entry is the list of its eight bytes; `none`
-- is `panic`, which does not return.
pub mod Decode
use mathlib.Core.Option
use n00b_os.Prelude.{
  ℕ, Bool, true, false, not, ◌&&◌, ◌==◌, if◌then◌else◌, ltb, Option, none, some, List, [], ◌∷◌,
  bit_and, bit_or, shift_right, ones,
}

pub record StructuredGdt : Type 0 where
  pub base : ℕ
  pub limit : ℕ
  pub access : ℕ

abbrev pub uint16_max : ℕ
uint16_max = 0xFFFF

unfoldable pub encode_gdt_entry : StructuredGdt → Option (List ℕ)
encode_gdt_entry source =
    let granular = ltb uint16_max source.limit in
    let limit = if granular then shift_right 12 source.limit else source.limit in
    let high_flags = if granular then 0xc0 else 0x40 in
    let segment0 = bit_and limit 0xff in
    let segment1 = bit_and (shift_right 8 limit) 0xff in
    let high_flags' = bit_or high_flags (bit_and (shift_right 16 limit) 0x0f) in
    let base_low0 = bit_and source.base 0xff in
    let base_low1 = bit_and (shift_right 8 source.base) 0xff in
    let base_middle = bit_and (shift_right 16 source.base) 0xff in
    let base_high = bit_and (shift_right 24 source.base) 0xff in
    if granular && not (bit_and source.limit 0xfff == 0xfff)
    then none
    else some (
        segment0 ∷ segment1 ∷ base_low0 ∷ base_low1 ∷ base_middle ∷ source.access ∷ high_flags'
        ∷ base_high ∷ [])

-- The table of as many entries as the list holds.
unfoldable pub structured_gdt_to_gdt : List StructuredGdt → Option (List (List ℕ))
unfolding Option.bind
structured_gdt_to_gdt [] = some []
structured_gdt_to_gdt (entry ∷ structured_gdt) =
    Option.bind (encode_gdt_entry entry)
      λ target_entry. Option.map (λ gdt. target_entry ∷ gdt) (structured_gdt_to_gdt structured_gdt)
