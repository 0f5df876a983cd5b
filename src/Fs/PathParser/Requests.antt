-- ===== src/Fs/PathParser/Requests.antt =====
-- What the functions of kernel/fs/path_parser.cpp ask of the kernel's heap. None of them looks at what
-- it gets: `parse` and its helpers give the values, and these are the requests beside them, in the
-- order in which the source makes them. `none` is a request that does not return, or one that gets
-- null, through which the source writes.
use mathlib.Core.Option
use n00b_os.Prelude.{
  ℕ, ◌+◌, ◌==◌, if◌then◌else◌, not, ltb, Option, none, some, List, [], ◌∷◌, length, is_neg, ◌≡◌,
  refl, Option-cases, Bool-cases, inl, inr,
}
use n00b_os.Disk.Streamer.{Allocator}
use n00b_os.Libc.Strings.{strlen}
use n00b_os.Libc.Strings.Compare.{view}
use n00b_os.Fs.PathParser.{
  max_path_length, PathPart, PathRoot, validate_path, get_drive, parse_accepted, skip_prefix, parse,
}

abbrev pub sizeof_path_root : ℕ
sizeof_path_root = 8

abbrev pub sizeof_path_part : ℕ
sizeof_path_part = 8

-- A request whose result is written through.
unfoldable pub request : (alloc : Allocator) → ℕ → alloc.State → Option (ℕ × alloc.State)
unfolding Option.bind
request alloc size s =
    Option.bind (alloc.kzalloc size s) (λ (a, s'). if a == 0 then none else some (a, s'))

module _ (alloc : Allocator) where
  open alloc use {State, kfree}

  -- Of `get_drive`, for `drive_str`.
  unfoldable pub request_drive : State → Option State
  unfolding request Option.bind
  request_drive s = Option.bind (request alloc 2 s) (λ (drive_str, s'). kfree drive_str s')

  -- Of `create_root`.
  unfoldable pub request_root : State → Option State
  unfolding request
  request_root s = Option.map (λ (_, s'). s') (request alloc sizeof_path_root s)

  -- Of `get_path_part_str`, for the name and a null byte; where there is no name there is no request.
  unfoldable pub request_name : Option (List ℕ) → State → Option State
  unfolding request
  request_name none s = some s
  request_name (some part_name) s =
      Option.map (λ (_, s'). s') (request alloc (length part_name + 1) s)

  -- Of `parse_path_part`.
  unfoldable pub request_part : PathPart → State → Option State
  unfolding request request_name Option.bind
  request_part part s =
      Option.bind (request_name part.part_name s)
        (λ s1. Option.map (λ (_, s'). s') (request alloc sizeof_path_part s1))

  -- Of the loop of `parse`, a call of `parse_path_part` for each part.
  unfoldable pub request_parts : List PathPart → State → Option State
  unfolding Option.bind
  request_parts [] s = some s
  request_parts (part ∷ parts) s = Option.bind (request_part part s) (λ s'. request_parts parts s')

  -- `parse` with its requests: what it returns, and the heap behind it. The outer `none` is a call
  -- that does not return within the fuel, or a request that is `none`.
  unfoldable pub parse_with_requests : ℕ → List ℕ → State → Option (Option PathRoot × State)
  unfolding Option.bind
  parse_with_requests fuel path s = Option.bind (strlen (length path + 1) (view path)) (λ len.
      if ltb max_path_length len
      then some (none, s)
      else Option.bind (validate_path path) (λ valid.
        if not valid
        then some (none, s)
        else Option.bind (get_drive path) (λ drive_number. Option.bind (request_drive s) (λ s1.
          if is_neg drive_number
          then some (none, s1)
          else Option.bind (request_root s1) (λ s2.
            Option.bind (parse_accepted fuel drive_number (skip_prefix path))
              (λ root. Option.map (λ s3. (some root, s3)) (request_parts root.path s2)))))))

-- Where `parse` returns a path, its requests are those of the drive, of the root and of each part.
pub parse_with_requests-parse :
    (alloc : Allocator) (fuel : ℕ) (path : List ℕ) (root : PathRoot) (s : alloc.State)
    → parse fuel path ≡ some (some root)
    → parse_with_requests alloc fuel path s
      ≡ Option.bind (request_drive alloc s) (λ s1.
        Option.bind
          (request_root alloc s1)
          (λ s2. Option.map (λ s3. (some root, s3)) (request_parts alloc root.path s2)))
unfolding parse parse_with_requests Option.bind
parse_with_requests-parse alloc fuel path root s h =
    elim (Option-cases (strlen (length path + 1) (view path))) [
      | inl stuck ↦ let e = rw stuck at h in absurd (cc)
      | inr (len, counted) ↦
          let h1 = rw counted at h in
          rw counted (elim (Bool-cases (ltb max_path_length len)) [
            | inl long ↦ let e = rw long at h1 in absurd (cc)
            | inr short ↦
                let h2 = rw short at h1 in
                rw short (elim (Option-cases (validate_path path)) [
                  | inl stuck ↦ let e = rw stuck at h2 in absurd (cc)
                  | inr (valid, validated) ↦
                      let h3 = rw validated at h2 in
                      rw validated (elim (Bool-cases (not valid)) [
                        | inl invalid ↦ let e = rw invalid at h3 in absurd (cc)
                        | inr fine ↦
                            let h4 = rw fine at h3 in rw fine (accepted (get_drive path) h4)
                      ])
                ])
          ])
    ]
  where
    behind : ℕ → Option (Option PathRoot)
    behind drive_number =
        if is_neg drive_number
        then some none
        else Option.map (λ r. some r) (parse_accepted fuel drive_number (skip_prefix path))

    accepted :
        (drive : Option ℕ)
        → Option.bind drive behind ≡ some (some root)
        → Option.bind {B = Option PathRoot × alloc.State} drive (λ drive_number.
          Option.bind {B = Option PathRoot × alloc.State} (request_drive alloc s) (λ s1.
            if is_neg drive_number
            then some (none, s1)
            else Option.bind {B = Option PathRoot × alloc.State} (request_root alloc s1) (λ s2.
              Option.bind {B = Option PathRoot × alloc.State}
                (parse_accepted fuel drive_number (skip_prefix path))
                (λ r. Option.map (λ s3. (some r, s3)) (request_parts alloc r.path s2)))))
          ≡ Option.bind {B = Option PathRoot × alloc.State} (request_drive alloc s) (λ s1.
            Option.bind {B = Option PathRoot × alloc.State}
              (request_root alloc s1)
              (λ s2. Option.map (λ s3. (some root, s3)) (request_parts alloc root.path s2)))
    accepted none h = absurd (cc)
    accepted (some drive_number) h = elim (Bool-cases (is_neg drive_number)) [
      | inl negative ↦ let e = rw negative at h in absurd (cc)
      | inr fine ↦
          let h1 = rw fine at h in
          elim (Option-cases (parse_accepted fuel drive_number (skip_prefix path))) [
            | inl stuck ↦ let e = rw stuck at h1 in absurd (cc)
            | inr (r, accepts) ↦
                let h2 = rw accepts at h1 in
                let same : r ≡ root = cc in rw (fine, accepts, same) refl
          ]
    ]
