-- ===== src/Tests/Seek.antt =====
-- A seek and a read of kernel/fs/file.cpp in the file of two clusters of Tests/Fat16, with the
-- kernel's heap, of which nothing is in use.
use n00b_os.Prelude.{◌*◌, ◌≡◌, refl, ◌==◌, if◌then◌else◌, none, some, [], ◌∷◌, is_neg, arith}
use n00b_os.Libc.Memory.{Mem}
use n00b_os.Heap.Kernel.Request.{kernel_allocator}
use n00b_os.Heap.Kernel.Room.{HasRoom}
use n00b_os.Disk.{new_disk}
use n00b_os.Disk.Streamer.Bytes.{byte_at}
use n00b_os.Fs.File.{FileTable, get_file_descriptor, fread, fseek}
use n00b_os.Fs.Fat16.Cluster.{get_first_cluster}
use n00b_os.Fs.Fat16.Cluster.Chain.{next, here, streams_at}
use n00b_os.Fs.Fat16.Cluster.ReadInternal.{data_start}
use n00b_os.Fs.Fat16.Item.{seek_current}
use n00b_os.Fs.Fat16.Volume.{Volume, fat16_fs}
use n00b_os.Fs.Fat16.Volume.Open.{mount, descriptor_of}
use n00b_os.Fs.Fat16.Volume.Read.{Delivered}
use n00b_os.Fs.Fat16.Volume.Room.{kernel_heap-ServesIn}
use n00b_os.Fs.Fat16.Volume.Seek.{file_at, fread-fseek}
use n00b_os.Tests.Room.{the_kernel_heap, some_room}
use n00b_os.Tests.Fat16.{the_sector, the_reader, the_file_system, the_stream, the_bytes, kernel_bin}

abbrev the_table : FileTable
the_table = some (descriptor_of 77 0 4096) ∷ []

-- KERNEL.BIN is open at position 88.
abbrev the_volume : Volume Mem
the_volume = record {
  disk = new_disk;
  mounted = none;
  descriptor_at = λ p. if p == 4096 then some (file_at 8192 9000 kernel_bin 88) else none;
  memory = λ a. 9;
  stat_at = λ p. record { flags = 0; filesize = 0 };
  heap = λ a. 0;
}

fread-fseek_example :
    (v' : Volume Mem) × (fseek
        (λ _. fat16_fs the_reader (kernel_allocator the_kernel_heap) 3 77)
        the_table
        0
        512
        seek_current
        (mount the_volume the_file_system (streams_at 0 0 the_stream))
      ≡ some (0, v'))
    × Delivered
        (byte_at the_sector)
        the_volume.memory
        0x2000
        (data_start the_file_system 3 600)
        (20 * 4)
        (fread
          (λ _. fat16_fs the_reader (kernel_allocator the_kernel_heap) 3 77)
          the_table
          0x2000
          20
          4
          0
          v')
unfolding get_file_descriptor get_first_cluster is_neg
fread-fseek_example =
    fread-fseek the_reader the_sector 400 (λ lba lt. refl) the_bytes
      (kernel_allocator the_kernel_heap) (HasRoom 1) (kernel_heap-ServesIn the_kernel_heap) 3 77
      the_file_system (omega arith) (omega arith) (omega arith) (omega arith) (omega arith)
      the_volume the_table 0 0 4096 8192 9000 88 512 seek_current 3 0 0 0x2000 20 4 the_stream
      kernel_bin (some_room 1 (omega arith)) refl (omega arith) refl refl (omega arith)
      (omega arith) (omega arith) (next (omega arith) (omega arith) here) (omega arith)
      (omega arith) (omega arith) (omega arith) (omega arith)
