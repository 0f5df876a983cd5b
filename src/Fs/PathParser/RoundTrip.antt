-- ===== src/Fs/PathParser/RoundTrip.antt =====
-- Which paths `parse` of kernel/fs/path_parser.cpp takes apart, and which keep it from returning.
use mathlib.Core.Option
use mathlib.Core.List.{append_assoc, append-nil}
use n00b_os.Prelude.{
  ℕ, zero, suc, ◌+◌, ◌≤◌, ◌<◌, ◌≡◌, ◌≢◌, refl, true, false, ◌==◌, ltb, leb, none, some, List, [],
  ◌∷◌, ◌++◌, map, length, All, arith, ap, ◌∙◌, sym, is_neg_small, sign_extend, ==_of_ne,
}
use n00b_os.Libc.Ctype.{isdigit}
use n00b_os.Libc.Stdlib.{atoi, atoi_loop}
use n00b_os.Libc.Strings.{strlen}
use n00b_os.Libc.Strings.Copy.{strlen_lem}
use n00b_os.Libc.Strings.Compare.{view, IsText}
use n00b_os.Fs.PathParser.{
  PathPart, validate_path, get_drive, part_length, copy_part, skip_slash, get_path_part_str,
  parse_path_part, parse_loop, parse_accepted, skip_prefix, parse, max_path_length,
}

-- A name between slashes: not empty, no null byte and no slash.
abbrev pub IsName : List ℕ → Type 0
IsName [] = ⊥
IsName (c ∷ p) = All (λ c. (0 < c) × (c < 256) × (c ≢ b'/')) (c ∷ p)

-- The names, each with a slash before it.
abbrev pub suffix : List (List ℕ) → List ℕ
suffix [] = []
suffix (p ∷ ps) = b'/' ∷ (p ++ suffix ps)

-- The path of these names on drive `d`.
abbrev pub path_of : ℕ → List ℕ → List (List ℕ) → List ℕ
path_of d p ps = (48 + d) ∷ (b':' ∷ (b'/' ∷ (p ++ suffix ps)))

abbrev pub named : List ℕ → PathPart
named p = record { part_name = some p }

-- What is left behind a name and its slash.
abbrev after : List (List ℕ) → List ℕ
after [] = []
after (p ∷ ps) = p ++ suffix ps

abbrev NameChars : List ℕ → Type 0
NameChars p = All (λ c. (0 < c) × (c < 256) × (c ≢ b'/')) p

name_chars : (p : List ℕ) → IsName p → NameChars p
name_chars [] h = absurd h
name_chars (c ∷ p) h = h

copy_part-append :
    (p : List ℕ) (ps : List (List ℕ)) → NameChars p → copy_part (p ++ suffix ps) ≡ (p, suffix ps)
unfolding copy_part
copy_part-append [] [] h = refl
copy_part-append [] (q ∷ ps) h = refl
copy_part-append (c ∷ p) ps h = rw (==_of_ne h.0.2, copy_part-append p ps h.1)

part_length-append :
    (p : List ℕ) (ps : List (List ℕ)) (idx : ℕ)
    → NameChars p
    → part_length (p ++ suffix ps) idx ≡ idx + length p
unfolding part_length
part_length-append [] [] idx h = omega arith
part_length-append [] (q ∷ ps) idx h = omega arith
part_length-append (c ∷ p) ps idx h =
    rw (==_of_ne h.0.2, part_length-append p ps (idx + 1) h.1) (omega arith)

skip_slash-suffix : (ps : List (List ℕ)) → skip_slash (suffix ps) ≡ after ps
unfolding skip_slash
skip_slash-suffix [] = refl
skip_slash-suffix (p ∷ ps) = refl

parse_path_part-append :
    (parts : List PathPart) (p : List ℕ) (ps : List (List ℕ))
    → IsName p
    → parse_path_part parts (p ++ suffix ps) ≡ (parts ++ named p ∷ [], after ps)
unfolding parse_path_part get_path_part_str
parse_path_part-append parts [] ps h = absurd h
parse_path_part-append parts (c ∷ p) ps h =
    let counted : (part_length ((c ∷ p) ++ suffix ps) 0 == 0) ≡ false =
      ground (arith, part_length-append (c ∷ p) ps 0 h) in
    rw (copy_part-append (c ∷ p) ps h, counted, skip_slash-suffix ps)

parse_loop-after :
    (fuel : ℕ) (parts : List PathPart) (ps : List (List ℕ))
    → length ps < fuel
    → All IsName ps
    → parse_loop fuel parts (after ps) ≡ some (parts ++ map named ps)
unfolding parse_loop
parse_loop-after zero parts ps enough h = absurd (omega arith)
parse_loop-after (suc fuel) parts [] enough h = ap some (sym (append-nil parts))
parse_loop-after (suc fuel) parts ([] ∷ ps) enough h = absurd h.0
parse_loop-after (suc fuel) parts ((c ∷ p) ∷ ps) enough h =
    rw (parse_path_part-append parts (c ∷ p) ps h.0) (
      parse_loop-after fuel (parts ++ named (c ∷ p) ∷ []) ps (omega arith) h.1
      ∙ ap some (append_assoc parts (named (c ∷ p) ∷ []) (map named ps)))

parse_accepted-append :
    (fuel d : ℕ) (p : List ℕ) (ps : List (List ℕ))
    → length ps < fuel
    → IsName p
    → All IsName ps
    → parse_accepted fuel d (p ++ suffix ps)
      ≡ some (record { drive_number = d; path = map named (p ∷ ps) })
unfolding parse_accepted
parse_accepted-append fuel d p ps enough h hs =
    rw (parse_path_part-append [] p ps h, parse_loop-after fuel (named p ∷ []) ps enough hs)

path_chars :
    (p : List ℕ) (ps : List (List ℕ)) → NameChars p → All IsName ps → IsText (p ++ suffix ps)
path_chars [] [] h hs = tt
path_chars [] (q ∷ ps) h hs = (ground arith, path_chars q ps (name_chars q hs.0) hs.1)
path_chars (c ∷ p) ps h hs = ((h.0.0, h.0.1), path_chars p ps h.1 hs)

view_past : (s : List ℕ) → view s (length s) ≡ 0
view_past [] = refl
view_past (c ∷ s) = view_past s

view_nonzero : (s : List ℕ) → IsText s → (i : ℕ) → i < length s → view s i ≢ 0
view_nonzero [] text i lt = absurd (omega arith)
view_nonzero (c ∷ s) text zero lt = ground (arith, text.0.0)
view_nonzero (c ∷ s) text (suc i) lt = view_nonzero s text.1 i (omega arith)

text-strlen : (s : List ℕ) → IsText s → strlen (length s + 1) (view s) ≡ some (length s)
text-strlen s text = strlen_lem (length s) (length s + 1) (view s) (omega arith) (record {
  content = λ i lt. ground (arith, view_nonzero s text i lt);
  end = ground (arith, view_past s);
})

slash_stuck :
    (fuel : ℕ) (parts : List PathPart) (rest : List ℕ) → parse_loop fuel parts (b'/' ∷ rest) ≡ none
unfolding parse_loop parse_path_part get_path_part_str part_length copy_part skip_slash
slash_stuck zero parts rest = refl
slash_stuck (suc fuel) parts rest =
    slash_stuck fuel (parts ++ (record { part_name = none }) ∷ []) rest

is_drive : (d : ℕ) → d < 10 → ((isdigit (sign_extend (48 + d)) == 0) ≡ false)
unfolding isdigit sign_extend
is_drive d h = ground arith

sign_extend_digit : (d : ℕ) → d < 10 → sign_extend (48 + d) ≡ 48 + d
unfolding sign_extend
sign_extend_digit d h = ground arith

get_drive-path : (d : ℕ) (path : List ℕ) → d < 10 → get_drive ((48 + d) ∷ path) ≡ some d
unfolding get_drive atoi atoi_loop
get_drive-path d path h =
    rw (text-strlen ((48 + d) ∷ []) ((omega arith, omega arith), tt), sign_extend_digit d h)
      (ap some (omega arith))

validate_path_lem :
    (d : ℕ) (path : List ℕ)
    → d < 10
    → IsText path
    → validate_path ((48 + d) ∷ (b':' ∷ (b'/' ∷ path))) ≡ some true
unfolding validate_path
validate_path_lem d path digit text =
    let whole : IsText ((48 + d) ∷ (b':' ∷ (b'/' ∷ path))) = (
      (omega arith, omega arith),
      ((omega arith, omega arith), ((omega arith, omega arith), text)),
    ) in
    let long : leb 3 (suc (suc (suc (length path)))) ≡ true = ground arith in
    rw (text-strlen ((48 + d) ∷ (b':' ∷ (b'/' ∷ path))) whole, long, is_drive d digit) refl

-- Before the parts are taken: `parse` accepts the prefix of a path on drive `d`.
parse-prefix :
    (fuel d : ℕ) (path : List ℕ)
    → d < 10
    → IsText path
    → length path + 3 ≤ max_path_length
    → parse fuel ((48 + d) ∷ (b':' ∷ (b'/' ∷ path)))
      ≡ Option.map (λ root. some root) (parse_accepted fuel d path)
unfolding parse skip_prefix
parse-prefix fuel d path digit text short =
    let whole : IsText ((48 + d) ∷ (b':' ∷ (b'/' ∷ path))) = (
      (omega arith, omega arith),
      ((omega arith, omega arith), ((omega arith, omega arith), text)),
    ) in
    let fits : ltb max_path_length (suc (suc (suc (length path)))) ≡ false = ground arith in
    rw
      (
        text-strlen ((48 + d) ∷ (b':' ∷ (b'/' ∷ path))) whole,
        fits,
        validate_path_lem d path digit text,
        get_drive-path d (b':' ∷ (b'/' ∷ path)) digit,
        is_neg_small d (omega arith),
      )
      refl

-- `parse` of the path of one or more names on a drive 0 to 9 gives that drive and these names in
-- order; for names without slash and null bytes, a path of at most 4096 bytes, and fuel for more
-- rounds than there are further names.
pub parse-path_of :
    (fuel d : ℕ) (p : List ℕ) (ps : List (List ℕ))
    → d < 10
    → IsName p
    → All IsName ps
    → length (path_of d p ps) ≤ max_path_length
    → length ps < fuel
    → parse fuel (path_of d p ps)
      ≡ some (some (record { drive_number = d; path = map named (p ∷ ps) }))
parse-path_of fuel d p ps digit name names short enough =
    parse-prefix fuel d (p ++ suffix ps) digit (path_chars p ps (name_chars p name) names)
      (omega (arith, short))
    ∙ rw (parse_accepted-append fuel d p ps enough name names)

copy_part-slash : (p t : List ℕ) → NameChars p → copy_part (p ++ b'/' ∷ t) ≡ (p, b'/' ∷ t)
unfolding copy_part
copy_part-slash [] t h = refl
copy_part-slash (c ∷ p) t h = rw (==_of_ne h.0.2, copy_part-slash p t h.1)

part_length-slash :
    (p t : List ℕ) (idx : ℕ) → NameChars p → part_length (p ++ b'/' ∷ t) idx ≡ idx + length p
unfolding part_length
part_length-slash [] t idx h = omega arith
part_length-slash (c ∷ p) t idx h =
    rw (==_of_ne h.0.2, part_length-slash p t (idx + 1) h.1) (omega arith)

IsText-append : (p rest : List ℕ) → NameChars p → IsText rest → IsText (p ++ b'/' ∷ (b'/' ∷ rest))
IsText-append [] rest h text = (ground arith, (ground arith, text))
IsText-append (c ∷ p) rest h text = ((h.0.0, h.0.1), IsText-append p rest h.1 text)

accepted_stuck :
    (fuel d : ℕ) (p rest : List ℕ)
    → NameChars p
    → parse_accepted fuel d (p ++ b'/' ∷ (b'/' ∷ rest)) ≡ none
unfolding parse_accepted parse_path_part get_path_part_str part_length copy_part skip_slash
accepted_stuck fuel d [] rest h =
    rw (slash_stuck fuel ((record { part_name = none }) ∷ []) (b'/' ∷ rest))
accepted_stuck fuel d (c ∷ p) rest h =
    let counted : (part_length ((c ∷ p) ++ b'/' ∷ (b'/' ∷ rest)) 0 == 0) ≡ false =
      ground (arith, part_length-slash (c ∷ p) (b'/' ∷ rest) 0 h) in
    rw
      (copy_part-slash (c ∷ p) (b'/' ∷ rest) h, counted, slash_stuck fuel (named (c ∷ p) ∷ []) rest)

-- Whatever the fuel, `parse` does not return on a path of at most 4096 bytes on a drive 0 to 9 in
-- which the first name, which may be empty, is followed by two slashes.
pub parse-doubled :
    (fuel d : ℕ) (p rest : List ℕ)
    → d < 10
    → All (λ c. (0 < c) × (c < 256) × (c ≢ b'/')) p
    → IsText rest
    → length (p ++ b'/' ∷ (b'/' ∷ rest)) + 3 ≤ max_path_length
    → parse fuel ((48 + d) ∷ (b':' ∷ (b'/' ∷ (p ++ b'/' ∷ (b'/' ∷ rest))))) ≡ none
parse-doubled fuel d p rest digit name text short =
    parse-prefix fuel d (p ++ b'/' ∷ (b'/' ∷ rest)) digit (IsText-append p rest name text)
      (omega (arith, short))
    ∙ rw (accepted_stuck fuel d p rest name)
