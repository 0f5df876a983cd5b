-- ===== src/Kernel/Files.antt =====
-- `kernel_main` of kernel/kernel.cpp behind `kheap_init`: the file systems, paging, the disk and the
-- two files that are shown. `none` is a call that does not return or that reads through a null
-- pointer. What `enable_paging` and `enable_interrupts` do is assembly.
use mathlib.Core.Option
use n00b_os.Prelude.{ℕ, Option, none, some, bit_or}
use n00b_os.Arch.Paging.{Words, is_present, is_writable, access_from_all}
use n00b_os.Arch.Paging.Chunk.{PagingChunk, PagingState, paging_new, paging_switch}
use n00b_os.Arch.Tty.{Terminal}
use n00b_os.Disk.{SectorReader, search_and_initialize}
use n00b_os.Disk.Streamer.{Allocator, new_stream, seek, read}
use n00b_os.Fs.File.{FileSystem, FileTable, resolve}
use n00b_os.Fs.File.Init.{init}
use n00b_os.Fs.Fat16.Cluster.{fill}
use n00b_os.Fs.Fat16.Volume.{Volume, buffer_at, put_buffer, fat16_fs}
use n00b_os.Kernel.Show.{Session, Frame, show_files}

-- What the kernel has set up: `kernel_paging_chunk`, the page tables, the processor's directory, and
-- what the calls on files change.
pub record Running (State : Type 0) : Type 0 where
  pub kernel_paging_chunk : ℕ × PagingChunk
  pub words : Words
  pub paging : PagingState
  pub session : Session State

module _ (read_sector : SectorReader) (alloc : Allocator) where
  -- The read of 514 bytes from byte 0x1ff of the disk into `buf`.
  unfoldable pub read_boot_sector : ℕ → Volume alloc.State → Option (Volume alloc.State)
  unfolding Option.bind
  read_boot_sector buf v = Option.bind (new_stream v.disk read_sector alloc 0 v.heap) (λ (ds, s1).
      elim ds [
        | none ↦ none
        | some (_, stream) ↦
            let (_, sought) = seek stream 0x1ff in
            Option.map
              (λ (_, bytes, _, s2). record v {
                memory = put_buffer v.memory buf (fill bytes (buffer_at v.memory buf));
                heap = s2;
              })
              (read v.disk read_sector alloc sought 514 s1)
      ])

  -- `buf` is the buffer of the first read; `fs` is the address of `fat16_fs`.
  unfoldable pub start_files :
      (fuel fs buf : ℕ)
      → Frame
      → FileTable
      → Terminal
      → Words
      → Volume alloc.State
      → Option (Running alloc.State)
  unfolding init read_boot_sector show_files search_and_initialize Option.bind
  start_files fuel fs buf frame table t w v =
      let fs_at : ℕ → FileSystem (Volume alloc.State) = λ _. fat16_fs read_sector alloc fuel fs in
      let (file_descriptors, loaded) = init fs table t in
      let (filesystems, terminal) = loaded in
      let flags = bit_or (bit_or is_writable is_present) access_from_all in
      Option.bind filesystems (λ filesystems'.
        Option.bind (paging_new alloc flags w v.heap) (λ (address, chunk, words, s1).
          Option.bind
            (search_and_initialize (λ u. u.disk) (λ d u. record u { disk = d })
              (resolve fs_at filesystems') (record v { heap = s1 }))
            (λ v1. Option.bind (read_boot_sector buf v1) (λ v2.
              let session : Session alloc.State = record {
                file_descriptors = file_descriptors;
                volume = v2;
                terminal = terminal;
              } in
              Option.map
                (λ shown. record {
                  kernel_paging_chunk = (address, chunk);
                  words = words;
                  paging = paging_switch chunk;
                  session = shown;
                })
                (show_files alloc fs_at fuel frame session)))))
