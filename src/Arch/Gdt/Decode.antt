-- ===== src/Arch/Gdt/Decode.antt =====
-- What the processor reads from an entry that kernel/arch/i386/gdt/gdt.cpp has encoded.
use mathlib.Core.Option
use n00b_os.Prelude.{
  ℕ, ◌+◌, ◌*◌, ◌/◌, ◌%◌, ◌^◌, ◌<◌, ◌≡◌, ◌⊎◌, inl, inr, refl, true, ◌==◌, if◌then◌else◌, ltb, Option,
  some, List, [], ◌∷◌, map, All, get_or, bit_and, bit_or, Bool-cases, Option-cases,
  bit_and-low_bits, bit_or_field, shift_right, arith, ◌∙◌,
}
use n00b_os.Arch.Gdt.{StructuredGdt, encode_gdt_entry, structured_gdt_to_gdt}

-- Base, limit and access byte of an entry, as the processor's manual lays them out: with the
-- granularity bit the limit counts pages of 4096 bytes.
abbrev pub decode : List ℕ → StructuredGdt
decode e =
    let units = get_or e 0 0 + get_or e 1 0 * 2 ^ 8 + get_or e 6 0 % 16 * 2 ^ 16 in
    record {
      base = get_or e 2 0 + get_or e 3 0 * 2 ^ 8 + get_or e 4 0 * 2 ^ 16 + get_or e 7 0 * 2 ^ 24;
      limit = if get_or e 6 0 / 128 == 1 then units * 4096 + 4095 else units;
      access = get_or e 5 0;
    }

and_byte : (a : ℕ) → bit_and a 0xff ≡ a % 256
and_byte a = bit_and-low_bits 8 a ∙ omega arith

and_nibble : (a : ℕ) → bit_and a 0x0f ≡ a % 16
and_nibble a = bit_and-low_bits 4 a ∙ omega arith

and_page : (a : ℕ) → bit_and a 0xfff ≡ a % 4096
and_page a = bit_and-low_bits 12 a ∙ omega arith

shift_8 : (a : ℕ) → shift_right 8 a ≡ a / 2 ^ 8
shift_8 a = omega arith

shift_12 : (a : ℕ) → shift_right 12 a ≡ a / 2 ^ 12
shift_12 a = omega arith

shift_16 : (a : ℕ) → shift_right 16 a ≡ a / 2 ^ 16
shift_16 a = omega arith

shift_24 : (a : ℕ) → shift_right 24 a ≡ a / 2 ^ 24
shift_24 a = omega arith

-- The granularity flags beside four bits of the limit.
flags : (a : ℕ) → a < 16 → (bit_or 0x40 a ≡ 0x40 + a) × (bit_or 0xc0 a ≡ 0xc0 + a)
flags a small = (bit_or_field 4 4 a (omega arith), bit_or_field 4 12 a (omega arith))

base_bytes :
    (a : ℕ)
    → a < 2 ^ 32
    → bit_and a 0xff
        + bit_and (shift_right 8 a) 0xff * 2 ^ 8
        + bit_and (shift_right 16 a) 0xff * 2 ^ 16
        + bit_and (shift_right 24 a) 0xff * 2 ^ 24
      ≡ a
base_bytes a small =
    rw
      (
        and_byte a,
        and_byte (shift_right 8 a),
        and_byte (shift_right 16 a),
        and_byte (shift_right 24 a),
        shift_24 a,
        shift_16 a,
        shift_8 a,
      )
      (omega arith)

-- The twenty bits of the limit, with either setting of the flags.
limit_bits :
    (u : ℕ)
    → u < 2 ^ 20
    → (bit_and u 0xff
          + bit_and (shift_right 8 u) 0xff * 2 ^ 8
          + bit_or 0x40 (bit_and (shift_right 16 u) 0x0f) % 16 * 2 ^ 16
        ≡ u)
      × (bit_and u 0xff
            + bit_and (shift_right 8 u) 0xff * 2 ^ 8
            + bit_or 0xc0 (bit_and (shift_right 16 u) 0x0f) % 16 * 2 ^ 16
          ≡ u)
      × (bit_or 0x40 (bit_and (shift_right 16 u) 0x0f) / 128 ≡ 0)
      × (bit_or 0xc0 (bit_and (shift_right 16 u) 0x0f) / 128 ≡ 1)
limit_bits u small =
    let high = u / 2 ^ 16 % 16 in
    let fits : high < 16 = omega arith in
    rw
      (
        and_nibble (shift_right 16 u),
        shift_16 u,
        (flags high fits).0,
        (flags high fits).1,
        and_byte u,
        and_byte (shift_right 8 u),
        shift_8 u,
      )
      (omega arith, omega arith, omega arith, omega arith)

same_descriptor :
    {b b' l l' : ℕ} (a : ℕ)
    → b ≡ b'
    → l ≡ l'
    → Path
        (Option StructuredGdt)
        (some (record { base = b; limit = l; access = a }))
        (some (record { base = b'; limit = l'; access = a }))
same_descriptor a p q = rw (p, q)

-- The entry of a descriptor decodes to the descriptor: for a base and a limit of 32 bits, and a limit
-- below 2 ^ 16 or one byte short of a whole number of pages.
pub decode_lem :
    (base limit access : ℕ)
    → base < 2 ^ 32
    → limit < 2 ^ 32
    → (limit < 2 ^ 16) ⊎ (limit % 4096 ≡ 4095)
    → Option.map decode (encode_gdt_entry (record { base = base; limit = limit; access = access }))
      ≡ some (record { base = base; limit = limit; access = access })
unfolding encode_gdt_entry
decode_lem base limit access base_small limit_small allowed = elim (Bool-cases (ltb 0xFFFF limit)) [
  | inl big ↦
      let units = shift_right 12 limit in
      let (_, bits, _, granular) = limit_bits units (omega arith) in
      let whole : (bit_and limit 0xfff == 0xfff) ≡ true =
        ground (arith, and_page limit, allowed, big) in
      rw (big, whole, granular, bits)
        (same_descriptor access (base_bytes base base_small) (ground (arith, big, allowed)))
  | inr small ↦
      let (bits, _, bytes, _) = limit_bits limit (ground (arith, small)) in
      rw (small, bytes, bits) (same_descriptor access (base_bytes base base_small) refl)
]

-- A descriptor that an entry can hold.
pub record Encodable (source : StructuredGdt) : Type 0 where
  pub base_fits : source.base < 2 ^ 32
  pub limit_fits : source.limit < 2 ^ 32
  pub limit_granular : (source.limit < 2 ^ 16) ⊎ (source.limit % 4096 ≡ 4095)

entry_lem :
    (source : StructuredGdt)
    → Encodable source
    → (e : List ℕ) × (encode_gdt_entry source ≡ some e) × (decode e ≡ source)
entry_lem source fits =
    let decodes =
      decode_lem source.base source.limit source.access fits.base_fits fits.limit_fits
        fits.limit_granular in
    elim (Option-cases (encode_gdt_entry source)) [
      | inl nothing ↦ absurd (cc)
      | inr (e, encoded) ↦ (e, encoded, cc)
    ]

-- A whole table of descriptors.
pub table_lem :
    (structured_gdt : List StructuredGdt)
    → All Encodable structured_gdt
    → (gdt : List (List ℕ)) × (structured_gdt_to_gdt structured_gdt ≡ some gdt)
      × (map decode gdt ≡ structured_gdt)
unfolding structured_gdt_to_gdt Option.bind
table_lem [] fits = ([], refl, refl)
table_lem (source ∷ structured_gdt) fits =
    let (e, encoded, decoded) = entry_lem source fits.0 in
    let (gdt, rest, decoded_rest) = table_lem structured_gdt fits.1 in
    (e ∷ gdt, rw (encoded, rest), rw (decoded, decoded_rest))
