-- ===== src/Fs/PathParser.antt =====
-- kernel/fs/path_parser.cpp. A path is the list of its bytes before the null byte, a pointer into it
-- what is left of that list, and the linked parts are a list. The source does not look at what
-- `kzalloc` gives it, so the values here do not depend on the heap; what is asked of the heap beside
-- them is in Fs/PathParser/Requests. `free` is given the addresses.
pub mod Requests
pub mod RoundTrip
use mathlib.Core.Option
use n00b_os.Prelude.{
  ℕ, zero, suc, ◌+◌, ◌-◌, Bool, true, false, not, ◌&&◌, ◌||◌, ◌==◌, if◌then◌else◌, ltb, leb, Option,
  none, some, List, [], ◌∷◌, ◌++◌, length, is_neg, sign_extend,
}
use n00b_os.Disk.Streamer.{Allocator}
use n00b_os.Libc.Ctype.{isdigit}
use n00b_os.Libc.Stdlib.{atoi}
use n00b_os.Libc.Strings.{strlen}
use n00b_os.Libc.Strings.Compare.{view}

abbrev pub max_path_length : ℕ
max_path_length = 4096

-- A null `part_name` is `none`.
pub record PathPart : Type 0 where
  pub part_name : Option (List ℕ)

pub record PathRoot : Type 0 where
  pub drive_number : ℕ
  pub path : List PathPart

unfoldable pub validate_path : List ℕ → Option Bool
unfolding strlen
validate_path path =
    Option.map
      (λ len.
        if leb 3 len
        then not (isdigit (sign_extend (view path 0)) == 0)
          && (view path 1 == b':' && view path 2 == b'/')
        else false)
      (strlen (length path + 1) (view path))

-- The value; `request_drive` is the request and the release of `drive_str`.
unfoldable pub get_drive : List ℕ → Option ℕ
unfolding atoi
get_drive path = atoi 2 (view (view path 0 ∷ []))

-- The loop that finds the length of the part, counted on from `idx`.
unfoldable pub part_length : List ℕ → ℕ → ℕ
part_length [] idx = idx
part_length (c ∷ path) idx =
    let rest = part_length path (idx + 1) in if c == b'/' then idx else rest

-- The loop that copies the part: what is copied, and where `path_ptr` stops.
unfoldable pub copy_part : List ℕ → List ℕ × List ℕ
copy_part [] = ([], [])
copy_part (c ∷ path) =
    let rest = copy_part path in if c == b'/' then ([], c ∷ path) else (c ∷ rest.0, rest.1)

unfoldable pub skip_slash : List ℕ → List ℕ
skip_slash [] = []
skip_slash (c ∷ path) = if c == b'/' then path else c ∷ path

-- The part and `*path` behind the call; `request_name` is its request.
unfoldable pub get_path_part_str : List ℕ → Option (List ℕ) × List ℕ
unfolding part_length copy_part skip_slash
get_path_part_str path =
    let (part, rest) = copy_part path in
    if part_length path 0 == 0 then (none, path) else (some part, skip_slash rest)

-- Appends the next part to the parts so far; `request_part` has its requests.
unfoldable pub parse_path_part : List PathPart → List ℕ → List PathPart × List ℕ
unfolding get_path_part_str
parse_path_part parts path =
    let (part_name, rest) = get_path_part_str path in
    (parts ++ (record { part_name = part_name }) ∷ [], rest)

-- The loop `while (*tmp_path != '\0')` on fuel.
unfoldable pub parse_loop : ℕ → List PathPart → List ℕ → Option (List PathPart)
parse_loop zero parts path = none
parse_loop (suc fuel) parts [] = some parts
parse_loop (suc fuel) parts (c ∷ path) =
    let (parts', rest) = parse_path_part parts (c ∷ path) in parse_loop fuel parts' rest

-- What `parse` does once the path is accepted, behind the drive prefix.
unfoldable pub parse_accepted : ℕ → ℕ → List ℕ → Option PathRoot
parse_accepted fuel drive_number path =
    let (parts, rest) = parse_path_part [] path in
    Option.map (λ parts'. record { drive_number = drive_number; path = parts' })
      (parse_loop fuel parts rest)

unfoldable pub skip_prefix : List ℕ → List ℕ
skip_prefix (_ ∷ (_ ∷ (_ ∷ path))) = path
skip_prefix path = []

-- The outer `none` is a call that does not return within the fuel, the inner one the null pointer.
-- `parse_with_requests` is the same call with its requests.
unfoldable pub parse : ℕ → List ℕ → Option (Option PathRoot)
unfolding Option.bind
parse fuel path = Option.bind (strlen (length path + 1) (view path)) (λ len.
    if ltb max_path_length len
    then some none
    else Option.bind (validate_path path) (λ valid.
      if not valid
      then some none
      else Option.bind (get_drive path) (λ drive_number.
        if is_neg drive_number
        then some none
        else Option.map (λ root. some root) (parse_accepted fuel drive_number (skip_prefix path)))))

-- The addresses of a `path_part` and of its `part_name`.
pub record PartAddresses : Type 0 where
  pub part : ℕ
  pub part_name_address : ℕ

module _ (alloc : Allocator) where
  open alloc use {State, kfree}

  -- The loop of `free` over the parts that are left.
  unfoldable pub free_parts : List PartAddresses → State → Option State
  unfolding Option.bind
  free_parts [] s = some s
  free_parts (p ∷ parts) s =
      Option.bind (kfree p.part_name_address s)
        (λ s1. Option.bind (kfree p.part s1) (λ s2. free_parts parts s2))

  -- `root` is the address of the `path_root`.
  unfoldable pub free : ℕ → List PartAddresses → State → Option State
  unfolding free_parts Option.bind
  free root parts s = Option.bind (free_parts parts s) (λ s'. kfree root s')
