-- ===== src/Fs/Fat16/Volume/Requests.antt =====
-- What fopen of kernel/fs/file.cpp asks of the kernel's heap where that has room: the requests of
-- parse of kernel/fs/path_parser.cpp, on the state of the mounted disk.
use mathlib.Core.Option
use n00b_os.Prelude.{
  length-append, ℕ, suc, ◌+◌, ◌^◌, ◌<◌, ◌≤◌, ◌≡◌, ◌≢◌, refl, ◌∙◌, ==_of_ne, some, List, [], ◌∷◌,
  length, arith,
}
use n00b_os.Disk.Streamer.{Allocator}
use n00b_os.Fs.PathParser.{max_path_length}
use n00b_os.Fs.PathParser.Requests.{
  request, request_drive, request_root, request_name, request_part, request_parts,
  parse_with_requests, parse_with_requests-parse,
}
use n00b_os.Fs.PathParser.RoundTrip.{IsName, path_of, named, parse-path_of}
use n00b_os.Fs.Fat16.Cluster.Chain.{Anywhere}
use n00b_os.Fs.Fat16.Mount.Accept.{Releases}
use n00b_os.Fs.Fat16.Volume.{Volume, volume_heap}

-- Every request is served at an address that is not an error number.
abbrev pub Serving : Allocator → Type 0
Serving alloc =
    (n : ℕ) (s : alloc.State)
    → (a : ℕ) × (s' : alloc.State) × (alloc.kzalloc n s ≡ some (a, s')) × (a ≢ 0) × (a < 2 ^ 31)

-- A request for less than a block is served so where there is room for one more, and leaves as much
-- room less that one, which its release gives back.
abbrev pub ServingIn : (alloc : Allocator) → (ℕ → alloc.State → Type 0) → Type 0
ServingIn alloc Room =
    (k n : ℕ) (s : alloc.State)
    → n < 4096
    → Room (suc k) s
    → (a : ℕ) × (s' s'' : alloc.State) × (alloc.kzalloc n s ≡ some (a, s'))
      × (a ≢ 0)
      × (a < 2 ^ 31)
      × Room k s'
      × (alloc.kfree a s' ≡ some s'')
      × Room (suc k) s''

pub Serving-Anywhere :
    (alloc : Allocator) → Serving alloc → Releases alloc → ServingIn alloc (λ _. Anywhere)
Serving-Anywhere alloc serving releases k n s small room =
    let (a, s', takes, nonzero, below) = serving n s in
    let (s'', frees) = releases a s' in (a, s', s'', takes, nonzero, below, tt, frees, tt)

two_below_block : 2 < 4096
two_below_block = omega arith

name_below_block :
    (name : List ℕ) → length (path_of 0 name []) ≤ max_path_length → length name + 1 < 4096
name_below_block name short = omega (arith, short, length-append name [])

module _ (alloc : Allocator) (Room : ℕ → alloc.State → Type 0)
    (serving : ServingIn alloc Room) where
  pub request_volume :
      (k n : ℕ) (v : Volume alloc.State)
      → n < 4096
      → Room (suc k) v.heap
      → (a : ℕ) × (s' : alloc.State) × (request (volume_heap alloc) n v
          ≡ some (a, record v { heap = s' }))
        × Room k s'
  unfolding request Option.bind
  request_volume k n v small room =
      let (a, s', _, takes, nonzero, _, room', _, _) = serving k n v.heap small room in
      (a, s', rw (takes, ==_of_ne nonzero) refl, room')

  request_drive_volume :
      (k : ℕ) (v : Volume alloc.State)
      → Room (suc k) v.heap
      → (s' : alloc.State) × (request_drive (volume_heap alloc) v ≡ some (record v { heap = s' }))
        × Room (suc k) s'
  unfolding request request_drive Option.bind
  request_drive_volume k v room =
      let (a, s', s'', takes, nonzero, _, _, frees, room') =
        serving k 2 v.heap two_below_block room in
      (s'', rw (takes, ==_of_ne nonzero, frees) refl, room')

  -- Of the path of a file in the root directory: three requests that are kept.
  pub parse_volume :
      (rounds : ℕ) (name : List ℕ) (v : Volume alloc.State)
      → Room 8 v.heap
      → 0 < rounds
      → IsName name
      → length (path_of 0 name []) ≤ max_path_length
      → (s' : alloc.State) × (parse_with_requests (volume_heap alloc) rounds (path_of 0 name []) v
          ≡ some
              (some (record { drive_number = 0; path = named name ∷ [] }), record v { heap = s' }))
        × Room 5 s'
  unfolding request_root request_parts request_part request_name Option.bind
  parse_volume rounds name v room some_rounds is_name short =
      let parses = parse-path_of rounds 0 name [] (omega arith) is_name tt short some_rounds in
      let (s1, drive, room1) = request_drive_volume 7 v room in
      let (_, s2, root, room2) = request_volume 7 8 (record v { heap = s1 }) (omega arith) room1 in
      let (_, s3, part_name, room3) =
        request_volume 6 (length name + 1) (record v { heap = s2 }) (name_below_block name short)
          room2 in
      let (_, s4, part, room4) = request_volume 5 8 (record v { heap = s3 }) (omega arith) room3 in
      (
        s4,
        parse_with_requests-parse (volume_heap alloc) rounds (path_of 0 name []) _ v parses
            ∙ rw (drive, root, part_name, part) refl,
        room4,
      )
