-- ===== src/Kernel/Show.antt =====
-- The last part of `kernel_main` of kernel/kernel.cpp, which shows two files on the terminal. `none`
-- is a call that does not return. The text of a buffer is what stands in it before the null byte.

pub mod Contents
use mathlib.Core.Option
use n00b_os.Prelude.{
  codes, ℕ, zero, suc, ◌+◌, ◌==◌, if◌then◌else◌, Option, none, some, List, [], ◌∷◌, tabulate,
  is_neg,
}
use n00b_os.Libc.Memory.{Mem, store}
use n00b_os.Libc.Strings.{strlen}
use n00b_os.Libc.Strings.Compare.{view}
use n00b_os.Libc.Stdlib.{itoa}
use n00b_os.Arch.Tty.{Terminal, terminal_write}
use n00b_os.Disk.Streamer.{Allocator}
use n00b_os.Fs.File.{FileSystem, FileTable, fopen, fread, fseek, fstat, fclose}
use n00b_os.Fs.Fat16.Item.{seek_set, seek_current}
use n00b_os.Fs.Fat16.Volume.{Volume, buffer_at, put_buffer, volume_heap}

-- What the calls change: the descriptors, the disk with the memory, and the terminal.
pub record Session (State : Type 0) : Type 0 where
  pub file_descriptors : FileTable
  pub volume : Volume State
  pub terminal : Terminal

-- The addresses of the local variables, those of the second block with a `2`.
pub record Frame : Type 0 where
  pub buf : ℕ
  pub stat : ℕ
  pub fsizebuf : ℕ
  pub fflagsbuf : ℕ
  pub buf_2 : ℕ
  pub buf2_2 : ℕ

abbrev pub print : {State : Type 0} → List ℕ → Session State → Session State
print text s = record s { terminal = terminal_write text s.terminal }

module _ {State : Type 0} (fs_at : ℕ → FileSystem (Volume State)) (fuel : ℕ) (frame : Frame) where
  -- `terminal_write` of a buffer.
  unfoldable pub print_buffer : ℕ → Session State → Option (Session State)
  print_buffer p s =
      let string = buffer_at s.volume.memory p in
      Option.map (λ len. print (tabulate string 0 len) s) (strlen fuel string)

  -- `fread` of `size` bytes to `buf`, the null byte at `last`, and what stands in `buf`.
  unfoldable pub show_contents : ℕ → ℕ → ℕ → ℕ → Session State → Option (Session State)
  unfolding print_buffer Option.bind
  show_contents buf size last fd s =
      Option.bind (fread fs_at s.file_descriptors buf size 1 fd s.volume) (λ (_, v).
        let ended : Session State = record s {
          volume = record v { memory = store v.memory (buf + last) b'\0' };
        } in
        Option.map (λ s'. print (codes "\n") s')
          (print_buffer buf (print (codes "Content:") ended)))

  -- `itoa` of a number into a buffer, which is shown with a new line.
  unfoldable pub show_number : ℕ → ℕ → Session State → Option (Session State)
  unfolding print_buffer Option.bind
  show_number value buf s = Option.bind (itoa value (buffer_at s.volume.memory buf) 10) (λ str.
      let m = put_buffer s.volume.memory buf str in
      Option.map (λ s'. print (codes "\n") s')
        (print_buffer buf (record s { volume = record s.volume { memory = m } })))

  unfoldable pub show_stat : ℕ → Session State → Option (Session State)
  unfolding show_number Option.bind
  show_stat fd s = Option.bind (fstat fs_at s.file_descriptors fd frame.stat s.volume) (λ (_, v).
      let stat = v.stat_at frame.stat in
      Option.bind
        (show_number stat.filesize frame.fsizebuf
          (print (codes "Stat: ") (record s { volume = v })))
        (λ s'. show_number (s'.volume.stat_at frame.stat).flags frame.fflagsbuf s'))

  unfoldable pub close_file : List ℕ → ℕ → Session State → Option (Session State)
  close_file message fd s =
      Option.map
        (λ (result, v).
          let closed : Session State = record s { volume = v } in
          if result == 0 then print message closed else closed)
        (fclose fs_at s.file_descriptors fd s.volume)

  unfoldable pub seek_file : ℕ → ℕ → ℕ → Session State → Option (Session State)
  seek_file fd offset whence s =
      Option.map (λ (_, v). record s { volume = v })
        (fseek fs_at s.file_descriptors fd offset whence s.volume)

  -- The first block, as far as the contents.
  unfoldable pub show_root_contents : ℕ → Session State → Option (Session State)
  unfolding show_contents
  show_root_contents fd s =
      show_contents frame.buf 11 11 fd (print (codes "We opened a root file!\n") s)

  unfoldable pub show_root_file : ℕ → Session State → Option (Session State)
  unfolding show_root_contents show_stat close_file Option.bind
  show_root_file fd s = Option.bind (show_root_contents fd s) (λ s1.
      Option.bind (show_stat fd s1)
        (λ s2. close_file (codes "Successful close of root file\n") fd s2))

  unfoldable pub show_directory_file : ℕ → Session State → Option (Session State)
  unfolding show_contents seek_file close_file Option.bind
  show_directory_file fd s =
      Option.bind (seek_file fd 3 seek_set (print (codes "We opened a directory file!\n") s)) (λ s1.
        Option.bind (show_contents frame.buf_2 9 9 fd s1) (λ s2.
          Option.bind (seek_file fd 1 seek_current s2) (λ s3.
            Option.bind (show_contents frame.buf2_2 8 7 fd s3)
              (λ s4. close_file (codes "Successful close of directory file\n") fd s4))))

module _ (alloc : Allocator) (fs_at : ℕ → FileSystem (Volume alloc.State)) (fuel : ℕ)
    (frame : Frame) where
  -- `fopen` for reading, and what follows where it returns a descriptor.
  unfoldable pub open_and_show :
      List ℕ
      → (ℕ → Session alloc.State → Option (Session alloc.State))
      → Session alloc.State
      → Option (Session alloc.State)
  unfolding Option.bind
  open_and_show path show s =
      Option.bind
        (fopen (volume_heap alloc) fs_at fuel s.volume.disk path (view (codes "r"))
          s.file_descriptors s.volume)
        (λ (fd, table, v).
          let opened : Session alloc.State = record s { file_descriptors = table; volume = v } in
          if is_neg fd then some opened else show fd opened)

  -- The two blocks.
  unfoldable pub show_files : Session alloc.State → Option (Session alloc.State)
  unfolding open_and_show show_root_file show_directory_file Option.bind
  show_files s =
      Option.bind (open_and_show (codes "0:/my_file.txt") (show_root_file fs_at fuel frame) s)
        (λ s'.
          open_and_show (codes "0:/my_dir/my_file2.txt") (show_directory_file fs_at fuel frame) s')
