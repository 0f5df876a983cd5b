-- ===== src/Fs/Fat16/Directory/Load.antt =====
-- Which items `load_directory` of kernel/fs/fat/fat16.cpp loads.
use mathlib.Core.Option
use n00b_os.Prelude.{ℕ, Option}
use n00b_os.Disk.{Disk}
use n00b_os.Fs.Fat16.{FatDirectory}
use n00b_os.Fs.Fat16.Cluster.Chain.{Chain}
use n00b_os.Fs.Fat16.Directory.{items_at}

-- The directory that is loaded from the `k` entries at byte `p`.
abbrev pub loaded_from : (ℕ → ℕ) → ℕ → ℕ → ℕ → FatDirectory
loaded_from byte k p item_address = record {
  item_address = item_address;
  item = items_at k byte p;
  total = k;
  sector_pos = 0;
  sector_pos_end = 0;
}
