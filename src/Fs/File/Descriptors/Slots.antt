-- ===== src/Fs/File/Descriptors/Slots.antt =====
-- What fopen of kernel/fs/file.cpp does to the table: it fails, or fills a free entry.
use mathlib.Core.Option
use n00b_os.Prelude.{
  ℕ, suc, ◌+◌, ◌<◌, ◌≡◌, refl, ◌⊎◌, inl, inr, true, ◌==◌, if◌then◌else◌, Option, none, some, List,
  [], ◌∷◌, get_or, set, length, neg32, is_neg, is_neg_small, is_neg_large, arith, subst, Bool-cases,
  Option-cases, map_outcome, ◌^◌,
}
use n00b_os.Config.{enomem, eio, einval}
use n00b_os.Disk.{Disk, DiskPtr, deref, get}
use n00b_os.Libc.Strings.{Str}
use n00b_os.Disk.Streamer.{Allocator}
use n00b_os.Fs.PathParser.Requests.{request, parse_with_requests}
use n00b_os.Fs.PathParser.{PathPart}
use n00b_os.Fs.File.{
  FileMode, file_mode_read, file_mode_write, file_mode_append, file_mode_invalid, FileSystem,
  FileDescriptor, FileTable, str_2_filemode, free_index, sizeof_file_descriptor,
  new_file_descriptor, open_on_disk, fopen,
}

-- Where the first free entry is.
data FreeIndex (t : FileTable) (base : ℕ) : Option ℕ → Type 0 where
  first_free : (k : ℕ) → k < length t → get_or t k none ≡ none → FreeIndex t base (some (base + k))
  all_taken : FreeIndex t base none

FreeIndex-suc :
    {fd : Option FileDescriptor} {t : FileTable} {base : ℕ} {r : Option ℕ}
    → FreeIndex t (base + 1) r
    → FreeIndex (fd ∷ t) base r
FreeIndex-suc {fd = fd} {t = t} {base = base} (first_free k lt free) =
    subst (λ n. FreeIndex (fd ∷ t) base (some n)) (omega arith)
      (first_free (suc k) (omega arith) free)
FreeIndex-suc all_taken = all_taken

free_index-FreeIndex : (t : FileTable) (base : ℕ) → FreeIndex t base (free_index t base)
unfolding free_index
free_index-FreeIndex [] base = all_taken
free_index-FreeIndex (none ∷ t) base =
    subst (λ n. FreeIndex (none ∷ t) base (some n)) (omega arith) (first_free 0 (omega arith) refl)
free_index-FreeIndex (some fd ∷ t) base = FreeIndex-suc (free_index-FreeIndex t (base + 1))

-- The results of a call that may open a file.
pub data Opens {World : Type 0} (t : FileTable) : Option (ℕ × FileTable × World) → Type 0 where
  hangs : Opens t none
  fails : (r : ℕ) (w : World) → is_neg r ≡ true → Opens t (some (r, t, w))
  opens :
      (k : ℕ) (fd : FileDescriptor) (w : World)
      → k < length t
      → get_or t k none ≡ none
      → Opens t (some (k, set t k (some fd), w))

data NewDescriptor {World : Type 0} (t : FileTable) (descriptor : ℕ → FileDescriptor)
    : Option (ℕ × (ℕ × FileTable) × World) → Type 0 where
  no_return : NewDescriptor t descriptor none
  no_room : (w : World) → NewDescriptor t descriptor (some (neg32 enomem, (0, t), w))
  placed :
      (k : ℕ) (w : World)
      → k < length t
      → get_or t k none ≡ none
      → NewDescriptor t descriptor (some (0, (k, set t k (some (descriptor k))), w))

new_file_descriptor_lem :
    (heap : Allocator) (t : FileTable) (descriptor : ℕ → FileDescriptor) (w : heap.State)
    → NewDescriptor t descriptor (new_file_descriptor heap t descriptor w)
unfolding new_file_descriptor
new_file_descriptor_lem heap t descriptor w = new_from (free_index-FreeIndex t 0)
  where
    new_from :
        {r : Option ℕ}
        → FreeIndex t 0 r
        → NewDescriptor t descriptor (elim r [
          | none ↦ some (neg32 enomem, (0, t), w)
          | some idx ↦
              Option.map
                (λ (_, w'). (0, (idx, set t idx (some (descriptor idx))), w'))
                (request heap sizeof_file_descriptor w)
        ])
    new_from (first_free k lt free) =
        let start : 0 + k ≡ k = omega arith in
        rw start (
          map_outcome (NewDescriptor t descriptor) no_return
            (λ (r : ℕ × heap.State) _. placed k r.1 lt free))
    new_from all_taken = no_room w

Opens-from :
    {World : Type 0} {t : FileTable} {descriptor : ℕ → FileDescriptor}
    {n : Option (ℕ × (ℕ × FileTable) × World)}
    → NewDescriptor t descriptor n
    → Opens t (
        Option.map
          (λ (result, made, w). if is_neg result then (result, t, w) else (made.0, made.1, w))
          n)
Opens-from no_return = hangs
Opens-from (no_room w) =
    let error : is_neg (neg32 enomem) ≡ true = is_neg_large (neg32 enomem) (omega arith) in
    rw error (fails (neg32 enomem) w error)
Opens-from {descriptor = descriptor} (placed k w lt free) =
    rw (is_neg_small 0 (omega arith)) (opens k (descriptor k) w lt free)

list_cases {ℓ} : {A : Type ℓ} (l : List A) → (l ≡ []) ⊎ ((a : A) × (rest : List A) × (l ≡ a ∷ rest))
list_cases [] = inl refl
list_cases (a ∷ rest) = inr (a, rest, refl)

mode_cases :
    (m : FileMode)
    → (m ≡ file_mode_invalid)
      ⊎ ((m ≡ file_mode_read) ⊎ ((m ≡ file_mode_write) ⊎ (m ≡ file_mode_append)))
mode_cases file_mode_invalid = inl refl
mode_cases file_mode_read = inr (inl refl)
mode_cases file_mode_write = inr (inr (inl refl))
mode_cases file_mode_append = inr (inr (inr refl))

module _ (heap : Allocator) (fs_at : ℕ → FileSystem heap.State) (disk : Disk) where
  open_on_disk-Opens :
      (d : DiskPtr) (path : List PathPart) (mode : FileMode) (t : FileTable) (w : heap.State)
      → Opens t (open_on_disk heap fs_at disk d path mode t w)
  unfolding open_on_disk Option.bind
  open_on_disk-Opens d path mode t w =
      elim (Option-cases ((fs_at (deref disk d).fs).open_file d path mode w)) [
        | inl never ↦ rw never hangs
        | inr ((p, w'), returns) ↦ rw returns (elim (Bool-cases (is_neg p)) [
          | inl error ↦ rw error (fails p w' error)
          | inr fine ↦ rw fine (Opens-from (new_file_descriptor_lem heap t _ w'))
        ])
      ]

  refused :
      (n : ℕ) (t : FileTable) (w : heap.State) → 0 < n → n < 2 ^ 31 → Opens t (some (neg32 n, t, w))
  refused n t w pos small = fails (neg32 n) w (is_neg_large (neg32 n) (omega arith))

  pub fopen-Opens :
      (fuel : ℕ) (filename : List ℕ) (mode : Str) (t : FileTable) (w : heap.State)
      → Opens t (fopen heap fs_at fuel disk filename mode t w)
  unfolding fopen Option.bind
  fopen-Opens fuel filename mode t w =
      elim (Option-cases (parse_with_requests heap fuel filename w)) [
        | inl never ↦ rw never hangs
        | inr ((none, w1), returns) ↦ rw returns (refused einval t w1 (omega arith) (omega arith))
        | inr ((some root, w1), returns) ↦ rw returns (elim (list_cases root.path) [
          | inl no_part ↦ rw no_part (refused einval t w1 (omega arith) (omega arith))
          | inr (part, parts, path) ↦ rw path (elim (Option-cases (get root.drive_number)) [
            | inl no_disk ↦ rw no_disk (refused eio t w1 (omega arith) (omega arith))
            | inr (d, is_disk) ↦ rw is_disk (elim (Bool-cases ((deref disk d).fs == 0)) [
              | inl no_fs ↦ rw no_fs (refused eio t w1 (omega arith) (omega arith))
              | inr has_fs ↦ rw has_fs (elim (mode_cases (str_2_filemode mode)) [
                | inl invalid ↦ rw invalid (refused einval t w1 (omega arith) (omega arith))
                | inr (inl r) ↦ rw r (open_on_disk-Opens d (part ∷ parts) file_mode_read t w1)
                | inr (inr (inl r)) ↦
                    rw r (open_on_disk-Opens d (part ∷ parts) file_mode_write t w1)
                | inr (inr (inr r)) ↦
                    rw r (open_on_disk-Opens d (part ∷ parts) file_mode_append t w1)
              ])
            ])
          ])
        ])
      ]
