-- ===== src/Arch/Idt/Handlers.antt =====
-- Which handler the processor calls on an interrupt after `idt_init` of kernel/arch/i386/idt/idt.cpp.
use n00b_os.Prelude.{
  ℕ, zero, suc, ◌+◌, ◌/◌, ◌%◌, ◌^◌, ◌<◌, ◌≤◌, ◌≡◌, refl, ◌∙◌, ap, ◌&&◌, ◌==◌, if◌then◌else◌, ltb,
  leb, [], ◌∷◌, length, set, get_or, bit_and, bit_and-low_bits, shift_right, arith,
}
use n00b_os.Arch.Idt.{IdtDescriptor, IdtTable, idt_set, cleared, set_all, idt_init}

-- The gate of an address: a 32-bit interrupt gate of the kernel's code segment.
abbrev pub gate : ℕ → IdtDescriptor
gate address = record {
  offset_1 = address % 2 ^ 16;
  selector = 0x08;
  zero_byte = 0;
  type_attributes = 0xEE;
  offset_2 = address / 2 ^ 16;
}

abbrev pub no_gate : IdtDescriptor
no_gate = record { offset_1 = 0; selector = 0; zero_byte = 0; type_attributes = 0; offset_2 = 0 }

low_half : (a : ℕ) → bit_and a 0x0000FFFF ≡ a % 2 ^ 16
low_half a = bit_and-low_bits 16 a ∙ omega arith

high_half : (a : ℕ) → shift_right 16 a ≡ a / 2 ^ 16
high_half a = omega arith

get_or-set_gate :
    (t : IdtTable) (n i : ℕ) (v : IdtDescriptor)
    → n < length t
    → get_or (set t n v) i no_gate ≡ (if i == n then v else get_or t i no_gate)
get_or-set_gate [] n i v lt = absurd (omega arith)
get_or-set_gate (x ∷ t) zero zero v lt = refl
get_or-set_gate (x ∷ t) zero (suc i) v lt = ground arith
get_or-set_gate (x ∷ t) (suc n) zero v lt = ground arith
get_or-set_gate (x ∷ t) (suc n) (suc i) v lt = ground (arith, get_or-set_gate t n i v (omega arith))

length-set : (t : IdtTable) (n : ℕ) (v : IdtDescriptor) → length (set t n v) ≡ length t
length-set [] n v = refl
length-set (x ∷ t) zero v = refl
length-set (x ∷ t) (suc n) v = ap suc (length-set t n v)

length-cleared : (k : ℕ) → length (cleared k) ≡ k
unfolding cleared
length-cleared zero = refl
length-cleared (suc k) = ap suc (length-cleared k)

idt_set_lem :
    (t : IdtTable) (n i address : ℕ)
    → n < length t
    → get_or (idt_set t n address) i no_gate ≡ (if i == n then gate address else get_or t i no_gate)
unfolding idt_set
idt_set_lem t n i address lt =
    rw (low_half address, high_half address) (get_or-set_gate t n i (gate address) lt)

length-idt_set : (t : IdtTable) (n address : ℕ) → length (idt_set t n address) ≡ length t
unfolding idt_set
length-idt_set t n address = length-set t n _

length-set_all : (k i address : ℕ) (t : IdtTable) → length (set_all k i address t) ≡ length t
unfolding set_all
length-set_all zero i address t = refl
length-set_all (suc k) i address t =
    length-set_all k (i + 1) address (idt_set t i address) ∙ length-idt_set t i address

set_all_lem :
    (k i j address : ℕ) (t : IdtTable)
    → i + k ≤ length t
    → get_or (set_all k i address t) j no_gate
      ≡ (if leb i j && ltb j (i + k) then gate address else get_or t j no_gate)
unfolding set_all
set_all_lem zero i j address t fits = ground arith
set_all_lem (suc k) i j address t fits =
    let inside : i + 1 + k ≤ length (idt_set t i address) =
      omega (arith, length-idt_set t i address) in
    ground (
      arith,
      set_all_lem k (i + 1) j address (idt_set t i address) inside,
      idt_set_lem t i j address (omega arith),
    )

-- After `idt_init` the gates of the 512 interrupts lead to `idt_zero` for number 0, to `int21h` for
-- number 0x21 and to `no_interrupt` for every other, and the register holds the table's address and
-- its last byte's offset.
pub idt_init_lem :
    (idt_descs no_interrupt idt_zero int21h i : ℕ)
    → i < 512
    → (get_or (idt_init idt_descs no_interrupt idt_zero int21h).0 i no_gate
        ≡ gate (if i == 0 then idt_zero else if i == 0x21 then int21h else no_interrupt))
      × ((idt_init idt_descs no_interrupt idt_zero int21h).1
          ≡ record { limit = 4095; base = idt_descs })
unfolding idt_init
idt_init_lem idt_descs no_interrupt idt_zero int21h i lt =
    let start = cleared 512 in
    let all = set_all 512 0 no_interrupt start in
    let with_zero = idt_set all 0 idt_zero in
    let size : length all ≡ 512 = length-set_all 512 0 no_interrupt start ∙ length-cleared 512 in
    let size' : length with_zero ≡ 512 = length-idt_set all 0 idt_zero ∙ size in
    (
      grind (
        arith,
        idt_set_lem with_zero 0x21 i int21h (omega arith),
        idt_set_lem all 0 i idt_zero (omega arith),
        set_all_lem 512 0 i no_interrupt start (omega (arith, length-cleared 512)),
      ),
      refl,
    )
