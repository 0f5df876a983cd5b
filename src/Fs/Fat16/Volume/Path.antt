-- ===== src/Fs/Fat16/Volume/Path.antt =====
-- A file in a subdirectory, found by `get_item` of kernel/fs/fat/fat16.cpp.
use mathlib.Core.Option
use n00b_os.Prelude.{Option}
use n00b_os.Disk.{Disk}
