-- ===== src/Fs/Fat16/Open.antt =====
-- kernel/fs/fat/fat16.cpp: opening and closing a file of a mounted file system. The outer `none` is
-- a call that does not return. A pointer to a structure is the pair of its address and the structure.
use mathlib.Core.Option
use n00b_os.Prelude.{ℕ, ◌==◌, if◌then◌else◌, Option, none, some, List, neg32}
use n00b_os.Config.{eio, enomem, einval, erofs}
use n00b_os.Disk.{Disk, SectorReader}
use n00b_os.Disk.Streamer.{Allocator}
use n00b_os.Fs.PathParser.{PathPart}
use n00b_os.Fs.File.{FileMode, file_mode_read, file_mode_write, file_mode_append, file_mode_invalid}
use n00b_os.Fs.Fat16.{FatPrivate, FatStreams}
use n00b_os.Fs.Fat16.Item.{FatItemDescriptor, directory, file}
use n00b_os.Fs.Fat16.Directory.{item_free}
use n00b_os.Fs.Fat16.Directory.Lookup.{get_item}

abbrev pub sizeof_fat_item_descriptor : ℕ
sizeof_fat_item_descriptor = 8

module _ (d : Disk) (read_sector : SectorReader) (alloc : Allocator) where
  open alloc use {State, kzalloc, kfree}

  -- The pointer or the error, and the descriptor where it is a pointer.
  unfoldable pub fat16_open :
      ℕ
      → FatPrivate
      → PathPart
      → List PathPart
      → FileMode
      → FatStreams
      → State
      → Option (ℕ × Option FatItemDescriptor × FatStreams × State)
  unfolding Option.bind
  fat16_open fuel private_data part next_parts mode streams s =
      let opened = Option.bind (kzalloc sizeof_fat_item_descriptor s) (λ (descriptor, s1).
        if descriptor == 0
        then some (neg32 enomem, none, streams, s1)
        else Option.map
            (λ (found, streams', s2). elim found [
              | none ↦ (neg32 eio, none, streams', s2)
              | some item ↦ (
                descriptor,
                some (record { item_address = item.0; item = item.1; pos = 0 }),
                streams',
                s2,
              )
            ])
            (get_item d read_sector alloc fuel private_data part next_parts streams s1)) in
      elim mode [
        | file_mode_read ↦ opened
        | file_mode_write ↦ some (neg32 erofs, none, streams, s)
        | file_mode_append ↦ some (neg32 erofs, none, streams, s)
        | file_mode_invalid ↦ some (neg32 erofs, none, streams, s)
      ]

  unfoldable pub item_descriptor_free : ℕ × FatItemDescriptor → State → Option State
  unfolding item_free Option.bind
  item_descriptor_free (address, item_desc) s =
      Option.bind (item_free d read_sector alloc (item_desc.item_address, item_desc.item) s)
        (λ s'. kfree address s')

  -- `private_data` is the pointer to the descriptor.
  unfoldable pub fat16_close : ℕ × FatItemDescriptor → State → Option (ℕ × State)
  unfolding item_descriptor_free
  fat16_close (address, fat16_desc) s = elim fat16_desc.item [
    | directory _ ↦ some (neg32 einval, s)
    | file _ _ ↦ Option.map (λ s'. (0, s')) (item_descriptor_free (address, fat16_desc) s)
  ]
