-- ===== src/Tests/Volume.antt =====
-- Reading a file of kernel/fs/fat/fat16.cpp from the start on: the first sector is a header of 5
-- reserved sectors and 16 root entries, sector 5 holds an unused entry, the entry of "A.TXT" and the
-- end, and the file's cluster 2 is sector 6.
use n00b_os.Prelude.{
  ℕ, ◌+◌, ◌*◌, ◌%◌, ◌<◌, ◌≡◌, refl, ◌==◌, ◌&&◌, leb, if◌then◌else◌, none, some, List, [], ◌∷◌, slt,
  sign_extend, rounds, bit_and, zero, suc, arith,
}
use n00b_os.Libc.Ctype.{tolower}
use n00b_os.Libc.Strings.Compare.{view}
use n00b_os.Arch.Tty.{Terminal}
use n00b_os.Disk.{Disk, primary, SectorReader, new_disk}
use n00b_os.Disk.Streamer.{Allocator, DiskStream}
use n00b_os.Disk.Streamer.Bytes.{byte_at}
use n00b_os.Fs.PathParser.RoundTrip.{path_of}
use n00b_os.Fs.File.{FileTable, file_mode_read, str_2_filemode, free_index, fopen, fread}
use n00b_os.Fs.Fat16.{FatH, FatPrivate, FatDirectoryItem}
use n00b_os.Fs.Fat16.Cluster.{get_first_cluster}
use n00b_os.Fs.Fat16.Cluster.Chain.{streams_at}
use n00b_os.Fs.Fat16.Cluster.ReadInternal.{data_start}
use n00b_os.Fs.Fat16.Mount.{header_at}
use n00b_os.Fs.Fat16.Mount.Accept.{header_of, root_of}
use n00b_os.Fs.Fat16.Directory.{item_at}
use n00b_os.Fs.Fat16.Directory.Find.{IsItem, FirstMatch, match_here}
use n00b_os.Fs.Fat16.Volume.{Volume, volume_heap, fat16_fs}
use n00b_os.Fs.Fat16.Volume.Open.{mount}
use n00b_os.Fs.Fat16.Volume.Read.{Delivered, fread-fopen}
use n00b_os.Libc.Memory.{Mem}
use n00b_os.Heap.Kernel.Request.{kernel_allocator}
use n00b_os.Heap.Kernel.Room.{HasRoom}
use n00b_os.Fs.Fat16.Volume.Room.{kernel_heap-ServesIn, kernel_heap-ServingIn}
use n00b_os.Tests.Room.{the_kernel_heap, some_room}

abbrev the_header_byte : ℕ → ℕ
the_header_byte i =
    if i == 13
    then 1
    else if i == 14
    then 5
    else if i == 17
    then 16
    else if i == 38
    then 0x29
    else 0

abbrev the_root_byte : ℕ → ℕ
the_root_byte i =
    if i == 0
    then 0xE5
    else if i == 32
    then b'A'
    else if leb 33 i && leb i 39
    then b' '
    else if i == 40
    then b'T'
    else if i == 41
    then b'X'
    else if i == 42
    then b'T'
    else if i == 43
    then 0x20
    else if i == 58
    then 2
    else 0

abbrev the_sector : ℕ → ℕ → ℕ
the_sector lba i =
    if lba == 0
    then the_header_byte i
    else if lba == 5
    then the_root_byte i
    else (lba * 512 + i) % 251

abbrev the_reader : SectorReader
the_reader lba total = (0, the_sector lba)

abbrev counting : Allocator
counting = record { State = ℕ; kzalloc = λ n s. some (4096, s + 1); kfree = λ a s. some (s + 1) }

the_bytes : (p : ℕ) → byte_at the_sector p < 256
the_bytes p = ground arith

abbrev the_header : FatH
the_header = header_of the_sector

abbrev the_item : FatDirectoryItem
the_item = item_at (byte_at the_sector) (5 * 512 + 32)

abbrev the_name : List ℕ
the_name = b'a' ∷ b'.' ∷ b't' ∷ b'x' ∷ b't' ∷ []

abbrev the_disk : Disk
the_disk = record new_disk { fs = 77; fs_private_data = 4096 }

abbrev volume_with : {State : Type 0} → State → Volume State
volume_with s = record {
  disk = the_disk;
  mounted = none;
  descriptor_at = λ p. none;
  memory = λ a. 9;
  stat_at = λ p. record { flags = 0; filesize = 0 };
  heap = s;
}

abbrev the_volume : Volume ℕ
the_volume = volume_with 0

abbrev free_entries : ℕ → FileTable
free_entries zero = []
free_entries (suc k) = none ∷ free_entries k

is_item : IsItem the_item
unfolding item_at
is_item = record {
  filename_size = omega arith;
  ext_size = omega arith;
  filename_bytes = omega arith;
  ext_bytes = omega arith;
}

the_match : FirstMatch the_name (the_item ∷ []) (some the_item)
unfolding item_at slt sign_extend tolower
the_match = match_here (refl, (refl, (refl, (refl, (refl, tt)))))

reads : str_2_filemode (view (b'r' ∷ [])) ≡ file_mode_read
unfolding str_2_filemode slt sign_extend rounds
reads = refl

is_file : bit_and the_item.attribute 0x10 ≡ 0
unfolding item_at
is_file = refl

first_cluster : get_first_cluster the_item ≡ 2
unfolding item_at get_first_cluster
first_cluster = refl

abbrev the_private : FatPrivate
the_private = record {
  header = the_header;
  root_directory = root_of new_disk the_header (the_item ∷ []);
}

abbrev the_stream : DiskStream
the_stream = record { pos = 7; d = primary }

fread-fopen_example :
    (table' : FileTable) × (v' : Volume Mem) × (fopen
        (volume_heap (kernel_allocator the_kernel_heap))
        (λ _. fat16_fs the_reader (kernel_allocator the_kernel_heap) 3 77)
        1
        the_disk
        (path_of 0 the_name [])
        (view (b'r' ∷ []))
        (free_entries 512)
        (mount (volume_with (λ a. 0)) the_private (streams_at 0 0 the_stream))
      ≡ some (0, table', v'))
    × Delivered
        (byte_at the_sector)
        the_volume.memory
        0x2000
        (data_start the_private (get_first_cluster the_item) 0)
        (11 * 2)
        (fread
          (λ _. fat16_fs the_reader (kernel_allocator the_kernel_heap) 3 77)
          table'
          0x2000
          11
          2
          0
          v')
unfolding header_at get_first_cluster item_at free_index
fread-fopen_example =
    fread-fopen the_reader the_sector 400 (λ lba lt. refl) the_bytes
      (kernel_allocator the_kernel_heap) HasRoom (kernel_heap-ServesIn the_kernel_heap) 3 77
      the_private (omega arith) (omega arith) (omega arith) (omega arith) (omega arith)
      (kernel_heap-ServingIn the_kernel_heap) 1 (volume_with (λ a. 0)) (free_entries 512) the_name
      (view (b'r' ∷ [])) the_item 0 0 0 0x2000 11 2 the_stream (some_room 8 (omega arith))
      (omega arith) refl (omega arith) refl refl reads (omega arith) (omega arith) (is_item, tt)
      the_match is_file (omega arith) (omega arith) (omega arith) (omega arith) (omega arith)
      (omega arith)

abbrev the_terminal : Terminal
the_terminal = record {
  terminal_row = 0;
  terminal_column = 0;
  terminal_colour = 10;
  terminal_buffer = λ i. 0;
}
