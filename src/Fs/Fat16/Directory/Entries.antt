-- ===== src/Fs/Fat16/Directory/Entries.antt =====
-- The raw entries of a directory of kernel/fs/fat/fat16.cpp, and the sector where a cluster starts.
use n00b_os.Prelude.{
  ℕ, zero, suc, ◌+◌, ◌-◌, ◌*◌, ◌^◌, ◌<◌, ◌≤◌, ◌≡◌, refl, ◌∙◌, ap, sym, List, ◌∷◌, length, sub32,
  arith,
}
use n00b_os.Fs.Fat16.{FatPrivate, FatDirectoryItem}
use n00b_os.Fs.Fat16.Cluster.{cluster_to_sector}
use n00b_os.Fs.Fat16.Mount.Accept.{Listed-length}
use n00b_os.Fs.Fat16.Directory.{item_at, items_at}
use n00b_os.Fs.Fat16.Directory.Count.{Listed, ends, unused, used, item_at-ext}

item_at_same :
    (f g : ℕ → ℕ) (p q : ℕ) → ((i : ℕ) → i < 32 → f (p + i) ≡ g (q + i)) → item_at f p ≡ item_at g q
item_at_same f g p q same =
    sym (item_at-ext (λ i. f (p + i)) f p (λ i lt. refl)) ∙ item_at-ext (λ i. f (p + i)) g q same

pub items_at-ext :
    (k : ℕ) (f g : ℕ → ℕ) (p q : ℕ)
    → ((i : ℕ) → i < k * 32 → f (p + i) ≡ g (q + i))
    → items_at k f p ≡ items_at k g q
unfolding items_at
items_at-ext zero f g p q same = refl
items_at-ext (suc k) f g p q same =
    let first = item_at_same f g p q λ i lt. same i (omega arith) in
    let rest : items_at k f (p + 32) ≡ items_at k g (q + 32) =
      items_at-ext k f g (p + 32) (q + 32)
        λ i lt. ap f (omega arith) ∙ same (32 + i) (omega arith) ∙ ap g (omega arith) in
    rw (first, rest) refl

-- Where none of the entries before the end is unused, they are the items.
pub items_at-Listed :
    {byte : ℕ → ℕ} {n p : ℕ} {items : List FatDirectoryItem}
    → Listed byte n p items
    → length items ≡ n
    → items_at n byte p ≡ items
unfolding items_at
items_at-Listed (ends e) all = refl
items_at-Listed (unused e rest) all = absurd (omega (arith, Listed-length rest))
items_at-Listed {byte = byte} (used {p = p} h k rest) all =
    ap (λ r. item_at byte p ∷ r) (items_at-Listed rest (omega arith))

-- The first sector of a cluster.
abbrev pub cluster_start : FatPrivate → ℕ → ℕ
cluster_start fs c =
    fs.root_directory.sector_pos_end + (c - 2) * fs.header.primary_header.sectors_per_cluster

pub cluster_to_sector_lem :
    (fs : FatPrivate) (c : ℕ)
    → 2 ≤ c
    → c < 0x10000
    → cluster_start fs c < 2 ^ 31
    → cluster_to_sector fs c ≡ cluster_start fs c
unfolding cluster_to_sector
cluster_to_sector_lem fs c in_data small fits =
    let down : sub32 c 2 ≡ c - 2 = omega arith in rw down (omega arith)
