-- ===== src/Fs/File/Descriptors.antt =====
-- How the table of kernel/fs/file.cpp changes over calls, and what happens when it is full.
pub mod Slots
use mathlib.Core.Option
use n00b_os.Prelude.{
  ℕ, zero, suc, ◌+◌, ◌<◌, ◌≡◌, ◌≢◌, refl, ◌⊎◌, inl, inr, true, ◌==◌, if◌then◌else◌, Option, none,
  some, List, [], ◌∷◌, get_or, set, length, neg32, is_neg, is_neg_small, is_neg_large, arith, ap,
  ◌∙◌, sym, subst, Bool-cases, Option-cases, ◌^◌,
}
use n00b_os.Config.{enomem, eio, einval}
use n00b_os.Disk.{Disk, DiskPtr, deref, get}
use n00b_os.Disk.Streamer.{Allocator}
use n00b_os.Libc.Strings.{Str}
use n00b_os.Fs.PathParser.{PathPart, parse}
use n00b_os.Fs.File.{
  FileMode, file_mode_read, file_mode_write, file_mode_append, file_mode_invalid, FileSystem,
  FileDescriptor, FileTable, str_2_filemode, free_index, new_file_descriptor, open_on_disk, fopen,
  fread, fseek, fstat, fclose,
}
use n00b_os.Fs.File.Descriptors.Slots.{Opens, fails, opens, fopen-Opens}

-- Every entry holds a descriptor.
abbrev pub IsFull : FileTable → Type 0
IsFull t = (i : ℕ) → i < length t → get_or t i none ≢ none

get_or-set :
    (t : FileTable) (k i : ℕ) (v : Option FileDescriptor)
    → k ≢ i
    → get_or (set t k v) i none ≡ get_or t i none
get_or-set [] k i v ne = refl
get_or-set (x ∷ t) zero zero v ne = absurd (ne refl)
get_or-set (x ∷ t) zero (suc i) v ne = refl
get_or-set (x ∷ t) (suc k) zero v ne = refl
get_or-set (x ∷ t) (suc k) (suc i) v ne = get_or-set t k i v (λ e. ne (ap suc e))

Opens-keep :
    {World : Type 0} {t t' : FileTable} {w' : World} {r : ℕ} (i : ℕ) (fd : FileDescriptor)
    → get_or t i none ≡ some fd
    → Opens t (some (r, t', w'))
    → get_or t' i none ≡ some fd
Opens-keep i fd held (fails r w error) = held
Opens-keep {t = t} i fd held (opens k fd' w lt free) =
    get_or-set t k i (some fd') (λ e. absurd (ne e)) ∙ held
  where
    ne : k ≢ i
    ne e = grind (arith, e, free, held)

module _ (heap : Allocator) (fs_at : ℕ → FileSystem heap.State) (disk : Disk) where
  open heap use {State}

  -- Calls one after the other, each on the table that the one before has left.
  pub data Calls : FileTable → State → FileTable → State → Type 0 where
    finished : {t : FileTable} {w : State} → Calls t w t w
    then_fopen :
        {t t' t'' : FileTable} {w w' w'' : State} (fuel : ℕ) (filename : List ℕ) (mode : Str)
        (r : ℕ)
        → fopen heap fs_at fuel disk filename mode t w ≡ some (r, t', w')
        → Calls t' w' t'' w''
        → Calls t w t'' w''
    then_fread :
        {t t'' : FileTable} {w w' w'' : State} (data_address block_size num_blocks fd r : ℕ)
        → fread fs_at t data_address block_size num_blocks fd w ≡ some (r, w')
        → Calls t w' t'' w''
        → Calls t w t'' w''
    then_fseek :
        {t t'' : FileTable} {w w' w'' : State} (fd offset whence r : ℕ)
        → fseek fs_at t fd offset whence w ≡ some (r, w')
        → Calls t w' t'' w''
        → Calls t w t'' w''
    then_fstat :
        {t t'' : FileTable} {w w' w'' : State} (fd stat r : ℕ)
        → fstat fs_at t fd stat w ≡ some (r, w')
        → Calls t w' t'' w''
        → Calls t w t'' w''
    then_fclose :
        {t t'' : FileTable} {w w' w'' : State} (fd r : ℕ)
        → fclose fs_at t fd w ≡ some (r, w')
        → Calls t w' t'' w''
        → Calls t w t'' w''

  -- Whatever calls follow, `fclose` among them, an entry of the table that holds a descriptor holds
  -- the same one after them.
  pub Calls-keep :
      {t t' : FileTable} {w w' : State} (i : ℕ) (fd : FileDescriptor)
      → get_or t i none ≡ some fd
      → Calls t w t' w'
      → get_or t' i none ≡ some fd
  Calls-keep i fd held finished = held
  Calls-keep i fd held (then_fopen {t = t} {w = w} fuel filename mode r returns rest) =
      Calls-keep i fd
        (Opens-keep i fd held
          (subst (Opens t) returns (fopen-Opens heap fs_at disk fuel filename mode t w)))
        rest
  Calls-keep i fd held (then_fread _ _ _ _ _ _ rest) = Calls-keep i fd held rest
  Calls-keep i fd held (then_fseek _ _ _ _ _ rest) = Calls-keep i fd held rest
  Calls-keep i fd held (then_fstat _ _ _ _ rest) = Calls-keep i fd held rest
  Calls-keep i fd held (then_fclose _ _ _ rest) = Calls-keep i fd held rest

  Opens-full :
      {t t' : FileTable} {w' : State} {r : ℕ}
      → IsFull t
      → Opens t (some (r, t', w'))
      → (is_neg r ≡ true) × (t' ≡ t)
  Opens-full full (fails r w error) = (error, refl)
  Opens-full full (opens k fd w lt free) = absurd (full k lt free)

  Calls-full : {t t' : FileTable} {w w' : State} → IsFull t → Calls t w t' w' → t' ≡ t
  Calls-full full finished = refl
  Calls-full {t = t} {w = w} full (then_fopen fuel filename mode r returns rest) =
      let same =
        (Opens-full full
          (subst (Opens t) returns (fopen-Opens heap fs_at disk fuel filename mode t w))).1 in
      Calls-full (subst IsFull (sym same) full) rest ∙ same
  Calls-full full (then_fread _ _ _ _ _ _ rest) = Calls-full full rest
  Calls-full full (then_fseek _ _ _ _ _ rest) = Calls-full full rest
  Calls-full full (then_fstat _ _ _ _ rest) = Calls-full full rest
  Calls-full full (then_fclose _ _ _ rest) = Calls-full full rest

  -- Once every entry of the table holds a descriptor, whatever calls follow, `fclose` among them, an
  -- `fopen` after them that returns gives an error and leaves the table as it was.
  pub fopen_full :
      {t t' t'' : FileTable} {w w' w'' : State} (fuel : ℕ) (filename : List ℕ) (mode : Str) (r : ℕ)
      → IsFull t
      → Calls t w t' w'
      → fopen heap fs_at fuel disk filename mode t' w' ≡ some (r, t'', w'')
      → (is_neg r ≡ true) × (t'' ≡ t)
  fopen_full {t' = t'} {w' = w'} fuel filename mode r full calls returns =
      let same = Calls-full full calls in
      let (error, kept) =
        Opens-full (subst IsFull (sym same) full)
          (subst (Opens t') returns (fopen-Opens heap fs_at disk fuel filename mode t' w')) in
      (error, kept ∙ same)
