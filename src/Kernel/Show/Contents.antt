-- ===== src/Kernel/Show/Contents.antt =====
-- What `kernel_main` of kernel/kernel.cpp shows of the file "0:/my_file.txt".
use mathlib.Core.Option
use n00b_os.Prelude.{
  codes, ℕ, ◌+◌, ◌*◌, ◌^◌, ◌<◌, ◌≤◌, ◌≡◌, ◌≢◌, refl, ◌∙◌, ap, sym, Option, some, All, length,
  tabulate, tabulate-ext, bit_and, is_neg_small, arith,
}
use n00b_os.Libc.Memory.{Mem, store}
use n00b_os.Libc.Strings.Copy.{IsString, strlen_lem}
use n00b_os.Libc.Strings.Compare.{view}
use n00b_os.Arch.Tty.{Terminal, terminal_write}
use n00b_os.Disk.{SectorReader}
use n00b_os.Disk.Streamer.{Allocator, DiskStream}
use n00b_os.Disk.Streamer.Bytes.{byte_at, Delivers}
use n00b_os.Fs.File.{FileSystem, FileTable, file_mode_read, str_2_filemode, free_index, fread}
use n00b_os.Fs.File.Modes.{str_2_filemode_lem}
use n00b_os.Fs.Fat16.{FatPrivate, FatDirectoryItem}
use n00b_os.Fs.Fat16.Cluster.{get_first_cluster}
use n00b_os.Fs.Fat16.Cluster.Chain.{ServesIn, streams_at, cluster_bytes}
use n00b_os.Fs.Fat16.Cluster.ReadInternal.{data_start}
use n00b_os.Fs.Fat16.Directory.Find.{IsItem, FirstMatch}
use n00b_os.Fs.Fat16.Volume.{Volume, fat16_fs}
use n00b_os.Fs.Fat16.Volume.Open.{mount, descriptor_of}
use n00b_os.Fs.Fat16.Volume.Requests.{ServingIn}
use n00b_os.Fs.Fat16.Volume.Read.{Delivered, delivered, get_file_descriptor-set, fread-fopen}
use n00b_os.Kernel.Show.{
  Session, Frame, print, print_buffer, show_contents, show_root_contents, open_and_show,
}

-- The terminal behind the text of a file, which stands in bytes `start` and following of the disk.
abbrev pub shown : (ℕ → ℕ) → ℕ → ℕ → Terminal → Terminal
shown byte start last t =
    terminal_write (codes "\n")
      (terminal_write (tabulate byte start last) (terminal_write (codes "Content:") t))

module _ {State : Type 0} (fs_at : ℕ → FileSystem (Volume State)) (fuel : ℕ) (frame : Frame)
    (byte : ℕ → ℕ) (buf start n last : ℕ) (fits : last ≤ n) (enough : last < fuel)
    (is_text : (i : ℕ) → i < last → byte (start + i) ≢ 0) where
  module _ (m : Mem) (reads : (i : ℕ) → i < n → m (buf + i) ≡ byte (start + i)) where
    -- What the buffer holds once the null byte is set.
    ended : ℕ → ℕ
    ended i = store m (buf + last) b'\0' (buf + i)

    ended_lem : (i : ℕ) → i < last → ended i ≡ byte (start + i)
    unfolding ended
    ended_lem i lt = ground (arith, reads i (omega arith))

    ended_content : (i : ℕ) → i < last → ended (0 + i) ≢ 0
    ended_content i lt e =
        let at : 0 + i ≡ i = omega arith in
        is_text i lt (sym (ended_lem i lt) ∙ sym (ap ended at) ∙ e)

    ended_end : ended (0 + last) ≡ 0
    unfolding ended
    ended_end = ground arith

    ended-IsString : IsString ended 0 last
    ended-IsString = record { content = λ i lt. ended_content i lt; end = ended_end }

    same_text : tabulate ended 0 last ≡ tabulate byte start last
    same_text =
        tabulate-ext ended byte last 0 start
          λ i lt. let at : 0 + i ≡ i = omega arith in ap ended at ∙ ended_lem i lt

  -- The session behind the read, with the null byte set.
  abbrev read_to : Volume State → Session State → Session State
  read_to v s = record s { volume = record v { memory = store v.memory (buf + last) b'\0' } }

  print_buffer_lem :
      (v : Volume State) (s : Session State)
      → ((i : ℕ) → i < n → v.memory (buf + i) ≡ byte (start + i))
      → print_buffer fs_at fuel frame buf (read_to v s)
        ≡ some (print (tabulate byte start last) (read_to v s))
  unfolding print_buffer ended
  print_buffer_lem v s reads =
      let len =
        strlen_lem last fuel (ended v.memory reads) enough (ended-IsString v.memory reads) in
      rw (len, same_text v.memory reads) refl

  contents_lem :
      (m : Mem) (s : Session State) (r : Option (ℕ × Volume State))
      → Delivered byte m buf start n r
      → (s' : Session State) × (Option.bind r (λ (_, v).
            Option.map
              (λ s'. print (codes "\n") s')
              (print_buffer fs_at fuel frame buf (print (codes "Content:") (read_to v s))))
          ≡ some s')
        × (s'.terminal ≡ shown byte start last s.terminal)
  unfolding Option.bind
  contents_lem m s r (delivered v reads before behind) = (
    print (codes "\n") (print (tabulate byte start last) (read_to v (print (codes "Content:") s))),
    rw (print_buffer_lem v (print (codes "Content:") s) reads) refl,
    refl,
  )

  show_contents_lem :
      (m : Mem) (fd : ℕ) (s : Session State)
      → Delivered byte m buf start n (fread fs_at s.file_descriptors buf n 1 fd s.volume)
      → (s' : Session State) × (show_contents fs_at fuel frame buf n last fd s ≡ some s')
        × (s'.terminal ≡ shown byte start last s.terminal)
  unfolding show_contents
  show_contents_lem m fd s read = contents_lem m s _ read

reading : str_2_filemode (view (codes "r")) ≡ file_mode_read
reading = str_2_filemode_lem (view (codes "r")) (omega arith) (omega arith)

module _ (read_sector : SectorReader) (sector : ℕ → ℕ → ℕ) (limit : ℕ)
    (delivers : Delivers read_sector sector limit) (bytes : (p : ℕ) → byte_at sector p < 256)
    (alloc : Allocator) (Room : ℕ → alloc.State → Type 0) (serves : ServesIn alloc (Room 1))
    (serving : ServingIn alloc Room) (fuel fs : ℕ) (private_data : FatPrivate) where
  -- Where the first item of the root directory that strcasecmp takes for my_file.txt is a file,
  -- `kernel_main` opens it, and what it writes as far as the file's contents is that it opened it,
  -- "Content:", the file's first 11 bytes as they stand on the disk, and a new line. For a file whose
  -- first 11 bytes are no null bytes; a free entry in the table of the descriptors; a mounted file
  -- system with 1 to 255 sectors per cluster whose table and the file's first cluster lie on the disk;
  -- a device that delivers the disk's 512-byte sectors; a heap with room for eight requests, such as
  -- the kernel's with eight free blocks in a row; and fuel for a text of 11 bytes.
  pub show_root_contents-shown :
      (rounds : ℕ) (frame : Frame) (v : Volume alloc.State) (table : FileTable) (t : Terminal)
      (item : FatDirectoryItem) (idx q q' : ℕ) (directory : DiskStream)
      → Room 8 v.heap
      → 11 < rounds
      → v.disk.sector_size ≡ 512
      → v.disk.fs ≢ 0
      → length table ≡ 512
      → free_index table 0 ≡ some idx
      → private_data.header.primary_header.reserved_sectors < 0x10000
      → private_data.header.primary_header.reserved_sectors + 256 ≤ limit
      → 0 < private_data.header.primary_header.sectors_per_cluster
      → private_data.header.primary_header.sectors_per_cluster < 256
      → limit * 512 < 2 ^ 31
      → All IsItem private_data.root_directory.item
      → FirstMatch (codes "my_file.txt") private_data.root_directory.item (some item)
      → bit_and item.attribute 0x10 ≡ 0
      → get_first_cluster item < 0x10000
      → 2 ≤ get_first_cluster item
      → data_start private_data (get_first_cluster item) 0 + cluster_bytes private_data
        ≤ limit * 512
      → ((i : ℕ)
          → i < 11
          → byte_at sector (data_start private_data (get_first_cluster item) 0 + i) ≢ 0)
      → (s' : Session alloc.State) × (open_and_show alloc
            (λ _. fat16_fs read_sector alloc fuel fs)
            rounds
            frame
            (codes "0:/my_file.txt")
            (show_root_contents (λ _. fat16_fs read_sector alloc fuel fs) rounds frame)
            (record {
              file_descriptors = table;
              volume = mount v private_data (streams_at q q' directory);
              terminal = t;
            })
          ≡ some s')
        × (s'.terminal
            ≡ shown
                (byte_at sector)
                (data_start private_data (get_first_cluster item) 0)
                11
                (terminal_write (codes "We opened a root file!\n") t))
  unfolding open_and_show show_root_contents Option.bind
  show_root_contents-shown rounds frame v table t item idx q q' directory room enough size has_fs
        entries free reserved_small table_inside some_sectors few limit_small are_items first
        is_file small in_data inside is_text =
      let fs_at = λ (_ : ℕ). fat16_fs read_sector alloc fuel fs in
      let start = data_start private_data (get_first_cluster item) 0 in
      let (table', v', opens, reads) =
        fread-fopen read_sector sector limit delivers bytes alloc Room serves fuel fs private_data
          reserved_small table_inside some_sectors few limit_small serving rounds v table
          (codes "my_file.txt") (view (codes "r")) item idx q q' frame.buf 11 1 directory room
          (omega arith) size has_fs entries free reading (omega arith) (omega arith) are_items first
          is_file small in_data inside (omega arith) (omega arith) (omega arith) in
      let below = (get_file_descriptor-set table idx (descriptor_of 0 idx 0) entries free).0 in
      let s1 : Session alloc.State = record {
        file_descriptors = table';
        volume = v';
        terminal = terminal_write (codes "We opened a root file!\n") t;
      } in
      let (s', shows, terminal) =
        show_contents_lem fs_at rounds frame (byte_at sector) frame.buf start 11 11 (omega arith)
          enough is_text v.memory idx s1 reads in
      (s', rw (opens, is_neg_small idx (omega (arith, below))) shows, terminal)
