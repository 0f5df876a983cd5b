-- ===== src/Fs/Fat16/Directory/Find.antt =====
-- Which item of a directory `find_item_in_directory` of kernel/fs/fat/fat16.cpp takes.
use mathlib.Core.Option
use n00b_os.Prelude.{
  ℕ, ◌+◌, ◌<◌, ◌≤◌, ◌≡◌, refl, inl, inr, false, ◌==◌, ==_iff, Bool-cases, Option, none, some, List,
  [], ◌∷◌, ◌++◌, All, length, length-append, arith,
}
use n00b_os.Libc.Strings.Compare.{IsText, NowhereBelow, strcasecmp-eq-zero}
use n00b_os.Disk.{Disk, SectorReader}
use n00b_os.Disk.Streamer.{Allocator}
use n00b_os.Fs.Fat16.{FatPrivate, FatStreams, FatDirectory, FatDirectoryItem}
use n00b_os.Fs.Fat16.Item.{FatItem}
use n00b_os.Fs.Fat16.Item.Name.{trim, dotted, name_of, length-trim, get_filename_cleared}
use n00b_os.Fs.Fat16.Directory.Lookup.{new_item, name_loop, find_item_in_directory}

-- An item with the fields' sizes of the disk, of bytes.
pub record IsItem (item : FatDirectoryItem) : Type 0 where
  pub filename_size : length item.filename ≤ 8
  pub ext_size : length item.ext ≤ 3
  pub filename_bytes : All (λ c. c < 256) item.filename
  pub ext_bytes : All (λ c. c < 256) item.ext

-- The first item whose name is taken for `name`.
pub data FirstMatch (name : List ℕ) : List FatDirectoryItem → Option FatDirectoryItem → Type 0 where
  no_match : FirstMatch name [] none
  match_here :
      {item : FatDirectoryItem} {items : List FatDirectoryItem}
      → NowhereBelow (name_of item) name
      → FirstMatch name (item ∷ items) (some item)
  match_later :
      {item : FatDirectoryItem} {items : List FatDirectoryItem} {r : Option FatDirectoryItem}
      → ¬ NowhereBelow (name_of item) name
      → FirstMatch name items r
      → FirstMatch name (item ∷ items) r

trim-IsText : (s : List ℕ) → All (λ c. c < 256) s → IsText (trim s)
trim-IsText [] small = tt
trim-IsText (c ∷ s) small = elim (Bool-cases (c == 0x00)) [
  | inl null ↦ rw null tt
  | inr more ↦ elim (Bool-cases (c == 0x20)) [
    | inl space ↦ rw (more, space) tt
    | inr char ↦ rw (more, char) ((ground (arith, more), small.0), trim-IsText s small.1)
  ]
]

IsText-append : (s t : List ℕ) → IsText s → IsText t → IsText (s ++ t)
IsText-append [] t h k = k
IsText-append (c ∷ s) t h k = (h.0, IsText-append s t h.1 k)

dotted-IsText : (s : List ℕ) → IsText s → IsText (dotted s)
dotted-IsText [] h = tt
dotted-IsText (c ∷ s) h = ((omega arith, omega arith), h)

length-dotted : (s : List ℕ) → length (dotted s) ≤ length s + 1
length-dotted [] = omega arith
length-dotted (c ∷ s) = omega arith

name_of-IsText : (item : FatDirectoryItem) → IsItem item → IsText (name_of item)
name_of-IsText item is_item =
    IsText-append (trim item.filename) (dotted (trim item.ext))
      (trim-IsText item.filename is_item.filename_bytes)
      (dotted-IsText (trim item.ext) (trim-IsText item.ext is_item.ext_bytes))

name_of_short : (item : FatDirectoryItem) → IsItem item → length (name_of item) ≤ 12
name_of_short item is_item = omega (
  arith,
  length-append (trim item.filename) (dotted (trim item.ext)),
  length-trim item.filename,
  length-trim item.ext,
  length-dotted (trim item.ext),
  is_item.filename_size,
  is_item.ext_size,
)

module _ (d : Disk) (read_sector : SectorReader) (alloc : Allocator) where
  -- What is made of the item that is found.
  abbrev pub made_of :
      ℕ
      → FatPrivate
      → FatStreams
      → alloc.State
      → Option FatDirectoryItem
      → Option (Option (ℕ × FatItem) × FatStreams × alloc.State)
  made_of fuel private_data streams s none = some (none, streams, s)
  made_of fuel private_data streams s (some item) =
      new_item d read_sector alloc fuel private_data item streams s

  name_loop_lem :
      (fuel : ℕ) (private_data : FatPrivate) (items : List FatDirectoryItem) (name : List ℕ)
      (streams : FatStreams) (s : alloc.State)
      → All IsItem items
      → IsText name
      → (r : Option FatDirectoryItem) × FirstMatch name items r
        × (name_loop d read_sector alloc fuel private_data items name streams s
            ≡ made_of fuel private_data streams s r)
  unfolding name_loop Option.bind
  name_loop_lem fuel private_data [] name streams s are_items text = (none, no_match, refl)
  name_loop_lem fuel private_data (item ∷ items) name streams s are_items text =
      let is_item = are_items.0 in
      let short = name_of_short item is_item in
      let named =
        get_filename_cleared item 255 is_item.filename_size is_item.ext_size (omega arith) in
      let (differs, compares, iff) =
        strcasecmp-eq-zero (name_of item) name 256 (omega arith) (name_of-IsText item is_item)
          text in
      elim (Bool-cases (differs == 0)) [
        | inl same ↦ (
          some item,
          match_here (iff.0 ((==_iff differs 0).0 same)),
          rw (named, compares, same) refl,
        )
        | inr other ↦
            let (r, first, rest) =
              name_loop_lem fuel private_data items name streams s are_items.1 text in
            (
              r,
              match_later (λ h. cc_of differs other (iff.1 h)) first,
              rw (named, compares, other) rest,
            )
      ]
    where
      cc_of : (n : ℕ) → (n == 0) ≡ false → n ≡ 0 → ⊥
      cc_of n h e = ground (arith, h)

  -- `find_item_in_directory` makes an item of the first one in the directory whose name is as long as
  -- `name` with no character below the one of `name`, case folded, or of none. For items of the
  -- disk's fields.
  pub find_item_in_directory-FirstMatch :
      (fuel : ℕ) (private_data : FatPrivate) (dir : FatDirectory) (name : List ℕ)
      (streams : FatStreams) (s : alloc.State)
      → All IsItem dir.item
      → IsText name
      → (r : Option FatDirectoryItem) × FirstMatch name dir.item r
        × (find_item_in_directory d read_sector alloc fuel private_data dir (some name) streams s
            ≡ made_of fuel private_data streams s r)
  unfolding find_item_in_directory
  find_item_in_directory-FirstMatch fuel private_data dir name streams s are_items text =
      name_loop_lem fuel private_data dir.item name streams s are_items text
