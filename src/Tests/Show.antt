-- ===== src/Tests/Show.antt =====
-- What kernel/kernel.cpp shows of a file: the root directory has the entry of "MY_FILE.TXT" in sector 5,
-- and the file's cluster 2 is sector 6.
use n00b_os.Prelude.{
  codes, ℕ, zero, suc, ◌+◌, ◌*◌, ◌%◌, ◌<◌, ◌≡◌, ◌≢◌, refl, ◌==◌, if◌then◌else◌, none, some, [], ◌∷◌,
  slt, sign_extend, bit_and, arith,
}
use n00b_os.Libc.Ctype.{tolower}
use n00b_os.Arch.Tty.{Terminal, terminal_write}
use n00b_os.Disk.{Disk, primary, SectorReader, new_disk}
use n00b_os.Disk.Streamer.{DiskStream}
use n00b_os.Disk.Streamer.Bytes.{byte_at}
use n00b_os.Fs.File.{FileTable, free_index}
use n00b_os.Fs.Fat16.{FatH, FatPrivate, FatDirectoryItem}
use n00b_os.Fs.Fat16.Cluster.{get_first_cluster}
use n00b_os.Fs.Fat16.Cluster.Chain.{streams_at}
use n00b_os.Fs.Fat16.Mount.{header_at}
use n00b_os.Fs.Fat16.Mount.Accept.{header_of, root_of}
use n00b_os.Fs.Fat16.Directory.{item_at}
use n00b_os.Fs.Fat16.Directory.Find.{IsItem, FirstMatch, match_here}
use n00b_os.Fs.Fat16.Volume.{Volume, fat16_fs}
use n00b_os.Fs.Fat16.Volume.Open.{mount}
use n00b_os.Kernel.Show.{Session, Frame, show_root_contents, open_and_show}
use n00b_os.Kernel.Show.Contents.{shown, show_root_contents-shown}
use n00b_os.Libc.Memory.{Mem}
use n00b_os.Heap.Kernel.Request.{kernel_allocator}
use n00b_os.Heap.Kernel.Room.{HasRoom}
use n00b_os.Fs.Fat16.Volume.Room.{kernel_heap-ServesIn, kernel_heap-ServingIn}
use n00b_os.Tests.Room.{the_kernel_heap, some_room}

abbrev the_header_byte : ℕ → ℕ
the_header_byte i =
    if i == 13
    then 1
    else if i == 14
    then 5
    else if i == 17
    then 16
    else if i == 38
    then 0x29
    else 0

abbrev the_root_byte : ℕ → ℕ
the_root_byte i =
    if i == 0
    then b'M'
    else if i == 1
    then b'Y'
    else if i == 2
    then b'_'
    else if i == 3
    then b'F'
    else if i == 4
    then b'I'
    else if i == 5
    then b'L'
    else if i == 6
    then b'E'
    else if i == 7
    then b' '
    else if i == 8
    then b'T'
    else if i == 9
    then b'X'
    else if i == 10
    then b'T'
    else if i == 11
    then 0x20
    else if i == 26
    then 2
    else 0

abbrev the_sector : ℕ → ℕ → ℕ
the_sector lba i =
    if lba == 0 then the_header_byte i else if lba == 5 then the_root_byte i else b'a' + i % 26

abbrev the_reader : SectorReader
the_reader lba total = (0, the_sector lba)

the_bytes : (p : ℕ) → byte_at the_sector p < 256
the_bytes p = ground arith

abbrev the_header : FatH
the_header = header_of the_sector

abbrev the_item : FatDirectoryItem
the_item = item_at (byte_at the_sector) (5 * 512)

abbrev the_disk : Disk
the_disk = record new_disk { fs = 77; fs_private_data = 4096 }

abbrev the_volume : Volume Mem
the_volume = record {
  disk = the_disk;
  mounted = none;
  descriptor_at = λ p. none;
  memory = λ a. 9;
  stat_at = λ p. record { flags = 0; filesize = 0 };
  heap = λ a. 0;
}

abbrev free_entries : ℕ → FileTable
free_entries zero = []
free_entries (suc k) = none ∷ free_entries k

is_item : IsItem the_item
unfolding item_at
is_item = record {
  filename_size = omega arith;
  ext_size = omega arith;
  filename_bytes = omega arith;
  ext_bytes = omega arith;
}

the_match : FirstMatch (codes "my_file.txt") (the_item ∷ []) (some the_item)
unfolding item_at slt sign_extend tolower
the_match =
    match_here
      (refl, (refl, (refl, (refl, (refl, (refl, (refl, (refl, (refl, (refl, (refl, tt)))))))))))

is_file : bit_and the_item.attribute 0x10 ≡ 0
unfolding item_at
is_file = refl

first_cluster : get_first_cluster the_item ≡ 2
unfolding item_at get_first_cluster
first_cluster = refl

abbrev the_private : FatPrivate
the_private = record {
  header = the_header;
  root_directory = root_of new_disk the_header (the_item ∷ []);
}

abbrev the_stream : DiskStream
the_stream = record { pos = 7; d = primary }

abbrev the_frame : Frame
the_frame = record {
  buf = 0x5000;
  stat = 0x5010;
  fsizebuf = 0x5020;
  fflagsbuf = 0x5024;
  buf_2 = 0x5030;
  buf2_2 = 0x5040;
}

abbrev the_terminal : Terminal
the_terminal = record {
  terminal_row = 0;
  terminal_column = 0;
  terminal_colour = 10;
  terminal_buffer = λ i. 0;
}

is_text : (i : ℕ) → i < 11 → byte_at the_sector (6 * 512 + i) ≢ 0
is_text i lt = ground arith

show_root_contents-shown_example :
    (s' : Session Mem) × (open_and_show
        (kernel_allocator the_kernel_heap)
        (λ _. fat16_fs the_reader (kernel_allocator the_kernel_heap) 3 77)
        12
        the_frame
        (codes "0:/my_file.txt")
        (show_root_contents
          (λ _. fat16_fs the_reader (kernel_allocator the_kernel_heap) 3 77)
          12
          the_frame)
        (record {
          file_descriptors = free_entries 512;
          volume = mount the_volume the_private (streams_at 0 0 the_stream);
          terminal = the_terminal;
        })
      ≡ some s')
    × (s'.terminal
        ≡ shown
            (byte_at the_sector)
            (6 * 512)
            11
            (terminal_write (codes "We opened a root file!\n") the_terminal))
unfolding header_at get_first_cluster item_at free_index
show_root_contents-shown_example =
    show_root_contents-shown the_reader the_sector 400 (λ lba lt. refl) the_bytes
      (kernel_allocator the_kernel_heap) HasRoom (kernel_heap-ServesIn the_kernel_heap)
      (kernel_heap-ServingIn the_kernel_heap) 3 77 the_private 12 the_frame the_volume
      (free_entries 512) the_terminal the_item 0 0 0 the_stream (some_room 8 (omega arith))
      (omega arith) refl (omega arith) refl refl (omega arith) (omega arith) (omega arith)
      (omega arith) (omega arith) (is_item, tt) the_match is_file (omega arith) (omega arith)
      (omega arith) is_text
