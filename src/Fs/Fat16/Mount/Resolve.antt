-- ===== src/Fs/Fat16/Mount/Resolve.antt =====
-- How `fat16_resolve` of kernel/fs/fat/fat16.cpp leaves the disk.
use mathlib.Core.Option
use n00b_os.Prelude.{ℕ, ◌≡◌, true, Option, none, some, is_neg, List, ◌≢◌}
use n00b_os.Disk.{Disk, SectorReader}
use n00b_os.Disk.Streamer.{Allocator, DiskStream}
use n00b_os.Fs.Fat16.{FatDirectory, FatPrivate, FatStreams}
use n00b_os.Fs.Fat16.Mount.{fat16_signature}

-- The header carries the signature of a FAT16 file system.
abbrev pub Signed : FatPrivate → Type 0
Signed fs = fs.header.extender_header.signature ≡ fat16_signature

-- The outcomes of `fat16_resolve`, by what the request for the private data got: the call does not
-- return; it fails and the disk has no file system and no private data; it accepts the disk, whose
-- header is signed, and the disk has both; or the request got null, and the disk keeps the file
-- system with a null pointer, whether the call fails or accepts a signed header.
pub data Resolved (fs : ℕ) (disk : Disk) {State : Type 0} (taken : Option (ℕ × State))
    : Option (ℕ × Disk × Option (FatPrivate × FatStreams) × State) → Type 0 where
  hangs : Resolved fs disk taken none
  refused :
      (r private_address : ℕ) (made : Option (FatPrivate × FatStreams)) (s s1 : State)
      → taken ≡ some (private_address, s1)
      → private_address ≢ 0
      → is_neg r ≡ true
      → Resolved fs disk taken (some (r, record disk { fs = 0; fs_private_data = 0 }, made, s))
  accepted :
      (private_address : ℕ) (private_data : FatPrivate) (streams : FatStreams) (s s1 : State)
      → taken ≡ some (private_address, s1)
      → private_address ≢ 0
      → Signed private_data
      → Resolved fs disk taken (
          some (
            0,
            record disk { fs = fs; fs_private_data = private_address },
            some (private_data, streams),
            s,
          ))
  refused_without_memory :
      (r : ℕ) (made : Option (FatPrivate × FatStreams)) (s s1 : State)
      → taken ≡ some (0, s1)
      → is_neg r ≡ true
      → Resolved fs disk taken (some (r, record disk { fs = fs; fs_private_data = 0 }, made, s))
  accepted_without_memory :
      (private_data : FatPrivate) (streams : FatStreams) (s s1 : State)
      → taken ≡ some (0, s1)
      → Signed private_data
      → Resolved fs disk taken
          (some (0, record disk { fs = fs; fs_private_data = 0 }, some (private_data, streams), s))

-- A call that does not return, or whose `result` is an error or 0, with what `P` says.
data Ends {A : Type 0} (result : A → ℕ) (P : A → Type 0) : Option A → Type 0 where
  stuck : Ends result P none
  fails : (a : A) → is_neg (result a) ≡ true → Ends result P (some a)
  ends : (a : A) → result a ≡ 0 → P a → Ends result P (some a)

module _ (d : Disk) (read_sector : SectorReader) (alloc : Allocator) where
  open alloc use {State, kzalloc, kfree}

  abbrev Bytes : Type 0
  Bytes = ℕ × List ℕ × DiskStream × State

  abbrev Root : Type 0
  Root = ℕ × FatDirectory × FatStreams × State

  abbrev Metadata : Type 0
  Metadata = ℕ × FatPrivate × FatStreams × State

  abbrev Made : Type 0
  Made = Option (FatPrivate × FatStreams)
