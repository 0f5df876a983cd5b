-- ===== src/Fs/Fat16/Directory/Missing.antt =====
-- Paths through a directory that lacks their next part, in `get_item` of kernel/fs/fat/fat16.cpp.
use mathlib.Core.Option
use n00b_os.Prelude.{
  ℕ, zero, suc, ◌≡◌, refl, inl, inr, ap, ◌∙◌, ◌==◌, Bool-cases, Option, none, some, List, [], ◌∷◌,
  All, add32, rounds,
}
use n00b_os.Libc.Strings.Compare.{IsText, NowhereBelow}
use n00b_os.Disk.{Disk, SectorReader}
use n00b_os.Disk.Streamer.{Allocator}
use n00b_os.Fs.PathParser.{PathPart}
use n00b_os.Fs.Fat16.{FatPrivate, FatStreams, FatDirectory, FatDirectoryItem}
use n00b_os.Fs.Fat16.Item.{directory}
use n00b_os.Fs.Fat16.Item.Name.{name_of}
use n00b_os.Fs.Fat16.Mount.Accept.{Releases}
use n00b_os.Fs.Fat16.Directory.{free_items, directory_free, item_free}
use n00b_os.Fs.Fat16.Directory.Lookup.{find_item_in_directory, item_loop, get_item}
use n00b_os.Fs.Fat16.Directory.Find.{
  IsItem, FirstMatch, no_match, match_here, match_later, made_of, find_item_in_directory-FirstMatch,
}

-- No item's name is taken for `name`.
abbrev pub Lacks : List ℕ → List FatDirectoryItem → Type 0
Lacks name = All (λ item. ¬ NowhereBelow (name_of item) name)

Lacks-none :
    {name : List ℕ} {items : List FatDirectoryItem} {r : Option FatDirectoryItem}
    → FirstMatch name items r
    → Lacks name items
    → r ≡ none
Lacks-none no_match lacks = refl
Lacks-none (match_here h) lacks = elim (lacks.0 h) [ ]
Lacks-none (match_later h rest) lacks = Lacks-none rest lacks.1

module _ (d : Disk) (read_sector : SectorReader) (alloc : Allocator)
    (releases : Releases alloc) where
  free_items_total :
      (k item_address : ℕ) (s : alloc.State)
      → (s' : alloc.State) × (free_items d read_sector alloc k item_address s ≡ some s')
  unfolding free_items Option.bind
  free_items_total zero item_address s = (s, refl)
  free_items_total (suc k) item_address s = elim (Bool-cases (item_address == 0)) [
    | inl null ↦
        let (s', rest) = free_items_total k (add32 item_address 32) s in (s', rw (null, rest) refl)
    | inr one ↦
        let (s1, frees) = releases item_address s in
        let (s', rest) = free_items_total k (add32 item_address 32) s1 in
        (s', rw (one, frees, rest) refl)
  ]

  pub item_free_total :
      (address a : ℕ) (dir : FatDirectory) (s : alloc.State)
      → (s' : alloc.State) × (item_free d read_sector alloc (address, directory (some (a, dir))) s
          ≡ some s')
  unfolding item_free directory_free Option.bind
  item_free_total address a dir s =
      let (s1, items) = free_items_total (rounds dir.total) dir.item_address s in
      let (s2, structure) = releases a s1 in
      let (s3, frees) = releases address s2 in (s3, rw (items, structure, frees) refl)

  module _ (fuel : ℕ) (private_data : FatPrivate) (part part2 part3 : PathPart)
      (parts : List PathPart) (address a : ℕ) (dir : FatDirectory) (streams streams1 : FatStreams)
      (s s1 : alloc.State)
      (enters : find_item_in_directory d read_sector alloc fuel private_data
          private_data.root_directory part.part_name streams s
        ≡ some (some (address, directory (some (a, dir))), streams1, s1))
      (name : List ℕ) (is_name : part2.part_name ≡ some name) (text : IsText name)
      (are_items : All IsItem dir.item) (lacks : Lacks name dir.item) where
    not_there :
        find_item_in_directory d read_sector alloc fuel private_data dir part2.part_name streams1 s1
        ≡ some (none, streams1, s1)
    not_there =
        let (r, first, finds) =
          find_item_in_directory-FirstMatch d read_sector alloc fuel private_data dir name streams1
            s1 are_items text in
        rw is_name (
          finds
          ∙ ap (made_of d read_sector alloc fuel private_data streams1 s1) (Lacks-none first lacks))

    -- Where a path's first part is a directory of the root that lacks the second part, `get_item`
    -- returns null for the path of these two parts, and has freed the directory; for a path that goes
    -- on behind them it has no result, since it reads the type of the null pointer. For items of the
    -- disk's fields and a heap that serves all releases.
    pub get_item_lacking :
        (s' : alloc.State) × (item_free d read_sector alloc (address, directory (some (a, dir))) s1
          ≡ some s')
        × (get_item d read_sector alloc fuel private_data part (part2 ∷ []) streams s
            ≡ some (none, streams1, s'))
        × (get_item d read_sector alloc fuel private_data part (part2 ∷ part3 ∷ parts) streams s
            ≡ none)
    unfolding get_item item_loop Option.bind
    get_item_lacking =
        let (s', frees) = item_free_total address a dir s1 in
        (s', frees, rw (enters, not_there, frees) refl, rw (enters, not_there, frees) refl)
