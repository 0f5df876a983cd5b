-- ===== src/Fs/Fat16/Item/Name.antt =====
-- The text that `get_filename` of kernel/fs/fat/fat16.cpp makes of a directory item.
use n00b_os.Prelude.{
  ℕ, zero, suc, ◌+◌, ◌-◌, ◌<◌, ◌≤◌, ◌≡◌, refl, fun_ext, ◌⊎◌, inl, inr, true, false, not, ◌&&◌, ◌==◌,
  if◌then◌else◌, ltb, List, [], ◌∷◌, ◌++◌, length, get_or, arith, Bool-cases,
}
use n00b_os.Libc.Memory.{store}
use n00b_os.Fs.Fat16.{FatDirectoryItem}
use n00b_os.Fs.Fat16.Item.{copy_until_space, get_space_terminated_string, get_filename}

-- A field of a directory item up to its padding.
abbrev pub trim : List ℕ → List ℕ
trim [] = []
trim (c ∷ cs) = let rest = trim cs in if c == 0x00 then [] else if c == 0x20 then [] else c ∷ rest

abbrev pub dotted : List ℕ → List ℕ
dotted [] = []
dotted (c ∷ cs) = b'.' ∷ (c ∷ cs)

-- The name of an item: its first field, and its extension where it has one.
abbrev pub name_of : FatDirectoryItem → List ℕ
name_of item = trim item.filename ++ dotted (trim item.ext)

-- What `copy_until_space` writes.
copy_until_space_at :
    (input : List ℕ) (buffer : ℕ → ℕ) (out : ℕ)
    → (copy_until_space input buffer out).1 ≡ out + length (trim input)
unfolding copy_until_space
copy_until_space_at [] buffer out = omega arith
copy_until_space_at (c ∷ input) buffer out =
    ground (arith, copy_until_space_at input (store buffer out c) (out + 1))

copy_until_space_bytes :
    (input : List ℕ) (buffer : ℕ → ℕ) (out a : ℕ)
    → (copy_until_space input buffer out).0 a ≡ (
        if not (ltb a out) && ltb a (out + length (trim input))
        then get_or (trim input) (a - out) 0
        else buffer a)
unfolding copy_until_space
copy_until_space_bytes [] buffer out a = ground arith
copy_until_space_bytes (c ∷ input) buffer out a =
    ground (arith, copy_until_space_bytes input (store buffer out c) (out + 1) a)

-- On a buffer that holds a null byte behind the text nothing is cut off.
get_space_terminated_string_lem :
    (input : List ℕ) (buffer : ℕ → ℕ) (out : ℕ)
    → buffer (out + length (trim input)) ≡ 0
    → get_space_terminated_string input buffer out ≡ copy_until_space input buffer out
unfolding get_space_terminated_string
get_space_terminated_string_lem input buffer out ends =
    let stops = copy_until_space_at input buffer out in
    let null : (copy_until_space input buffer out).0 (copy_until_space input buffer out).1 ≡ 0 =
      rw stops (
        ground
          (arith, copy_until_space_bytes input buffer out (out + length (trim input)), ends)) in
    rw null

pub length-trim : (cs : List ℕ) → length (trim cs) ≤ length cs
length-trim [] = omega arith
length-trim (c ∷ cs) = ground (arith, length-trim cs)

get_or-append :
    (xs ys : List ℕ) (i : ℕ)
    → get_or (xs ++ ys) i 0
      ≡ (if ltb i (length xs) then get_or xs i 0 else get_or ys (i - length xs) 0)
get_or-append [] ys i = ground arith
get_or-append (x ∷ xs) ys zero = ground arith
get_or-append (x ∷ xs) ys (suc i) = ground (arith, get_or-append xs ys i)

get_or_past : (xs : List ℕ) (i : ℕ) → length xs ≤ i → get_or xs i 0 ≡ 0
get_or_past [] i le = refl
get_or_past (x ∷ xs) zero le = absurd (omega arith)
get_or_past (x ∷ xs) (suc i) le = get_or_past xs i (omega arith)

-- Whether there is an extension.
trim_first :
    (ext : List ℕ)
    → (((not (get_or ext 0 0 == 0x00) && not (get_or ext 0 0 == 0x20)) ≡ false) × (trim ext ≡ []))
      ⊎ (((not (get_or ext 0 0 == 0x00) && not (get_or ext 0 0 == 0x20)) ≡ true)
          × (dotted (trim ext) ≡ b'.' ∷ trim ext))
trim_first [] = inl (refl, refl)
trim_first (c ∷ cs) = elim (Bool-cases (c == 0x00)) [
  | inl null ↦ rw null (inl (refl, refl))
  | inr more ↦ elim (Bool-cases (c == 0x20)) [
    | inl space ↦ rw (more, space) (inl (refl, refl))
    | inr char ↦ rw (more, char) (inr (refl, refl))
  ]
]

get_or_cons :
    (x : ℕ) (xs : List ℕ) (i : ℕ)
    → get_or (x ∷ xs) i 0 ≡ (if i == 0 then x else get_or xs (i - 1) 0)
get_or_cons x xs zero = ground arith
get_or_cons x xs (suc i) = ground arith

abbrev cleared : (ℕ → ℕ) → ℕ → ℕ → ℕ
cleared out max_length i = if ltb i max_length then 0x00 else out i

-- The extension behind a copied name, on a buffer that is null there.
with_extension :
    (filename ext : List ℕ) (start : ℕ → ℕ) (i : ℕ)
    → ((a : ℕ) → a < 13 → start a ≡ 0)
    → start i ≡ 0
    → length (trim filename) ≤ 8
    → length (trim ext) ≤ 3
    → (get_space_terminated_string ext
          (store (copy_until_space filename start 0).0 (0 + length (trim filename)) b'.')
          (0 + length (trim filename) + 1)).0
        i
      ≡ get_or (trim filename ++ b'.' ∷ trim ext) i 0
with_extension filename ext start i null null_at short_name short_ext =
    let named = (copy_until_space filename start 0).0 in
    let n = length (trim filename) in
    let e = length (trim ext) in
    let buffer = store named (0 + n) b'.' in
    let behind : named (0 + n + 1 + e) ≡ 0 =
      ground
        (arith, copy_until_space_bytes filename start 0 (0 + n + 1 + e), null (0 + n + 1 + e)) in
    let ends : buffer (0 + n + 1 + e) ≡ 0 = ground (arith, behind) in
    rw (get_space_terminated_string_lem ext buffer (0 + n + 1) ends) (
      ground (
        arith,
        copy_until_space_bytes ext buffer (0 + n + 1) i,
        copy_until_space_bytes filename start 0 i,
        get_or-append (trim filename) (b'.' ∷ trim ext) i,
        get_or_cons b'.' (trim ext) (i - n),
        get_or_past (trim ext) (i - n - 1),
      ))

get_filename_at :
    (item : FatDirectoryItem) (out : ℕ → ℕ) (max_length i : ℕ)
    → length item.filename ≤ 8
    → length item.ext ≤ 3
    → 13 ≤ max_length
    → cleared out max_length i ≡ 0
    → get_filename item out max_length i ≡ get_or (name_of item) i 0
unfolding get_filename
get_filename_at item out max_length i short_name short_ext room null_at =
    let base = trim item.filename in
    let start = cleared out max_length in
    let base_short = length-trim item.filename in
    let ext_short = length-trim item.ext in
    let ends : start (0 + length base) ≡ 0 = ground arith in
    rw (get_space_terminated_string_lem item.filename start 0 ends) (elim (trim_first item.ext) [
      | inl (no_ext, empty) ↦
          rw (no_ext, empty)
            (ground (
              arith,
              copy_until_space_bytes item.filename start 0 i,
              get_or-append base [] i,
              null_at,
            ))
      | inr (has_ext, dot) ↦
          rw (has_ext, dot, copy_until_space_at item.filename start 0)
            (with_extension item.filename item.ext start i (λ a in_room. ground arith) null_at
              (omega arith) (omega arith))
    ])

-- `get_filename` writes the item's name, its extension behind a dot where it has one, and null bytes
-- behind it, up to `max_length` bytes; for fields of at most 8 and 3 bytes and room for 13.
pub get_filename_lem :
    (item : FatDirectoryItem) (out : ℕ → ℕ) (max_length i : ℕ)
    → length item.filename ≤ 8
    → length item.ext ≤ 3
    → 13 ≤ max_length
    → i < max_length
    → get_filename item out max_length i ≡ get_or (name_of item) i 0
get_filename_lem item out max_length i short_name short_ext room lt =
    get_filename_at item out max_length i short_name short_ext room (ground arith)

-- On a buffer of null bytes.
pub get_filename_cleared :
    (item : FatDirectoryItem) (max_length : ℕ)
    → length item.filename ≤ 8
    → length item.ext ≤ 3
    → 13 ≤ max_length
    → get_filename item (λ i. 0) max_length ≡ (λ i. get_or (name_of item) i 0)
get_filename_cleared item max_length short_name short_ext room =
    fun_ext λ i. get_filename_at item (λ j. 0) max_length i short_name short_ext room (ground arith)
