-- ===== src/Fs/Fat16.antt =====
-- kernel/fs/fat/fat16.cpp: the structures on disk and in memory. A structure's fields are numbers
-- within their widths, byte arrays are lists. The streams of `fat_private` point to structures that
-- change with each access, so they are a state of their own (FatStreams).
pub mod Cluster
pub mod Directory
pub mod Item
pub mod Mount
pub mod Open
pub mod Volume
use n00b_os.Prelude.{ℕ, Option, List}
use n00b_os.Disk.Streamer.{DiskStream}

abbrev pub fat16_fat_entry_size : ℕ
fat16_fat_entry_size = 0x02

abbrev pub fat16_fat_reserved_cluster_start : ℕ
fat16_fat_reserved_cluster_start = 0xFFF0

abbrev pub fat16_fat_reserved_cluster_end : ℕ
fat16_fat_reserved_cluster_end = 0xFFF6

abbrev pub fat16_fat_bad_sector : ℕ
fat16_fat_bad_sector = 0xFFF7

abbrev pub fat16_fat_last_cluster_in_file_start : ℕ
fat16_fat_last_cluster_in_file_start = 0xFFF8

abbrev pub fat16_fat_last_cluster_in_file_end : ℕ
fat16_fat_last_cluster_in_file_end = 0xFFFF

abbrev pub fat16_unused : ℕ
fat16_unused = 0x00

pub record FatHeader : Type 0 where
  pub short_jmp_instruction : List ℕ
  pub oem_identifier : List ℕ
  pub bytes_per_sector : ℕ
  pub sectors_per_cluster : ℕ
  pub reserved_sectors : ℕ
  pub fat_copies : ℕ
  pub root_dir_entries : ℕ
  pub number_of_sectors : ℕ
  pub media_type : ℕ
  pub sectors_per_fat : ℕ
  pub sectors_per_track : ℕ
  pub number_of_heads : ℕ
  pub hidden_sectors : ℕ
  pub sectors_big : ℕ

pub record FatHeaderExtended : Type 0 where
  pub drive_number : ℕ
  pub win_nt_bit : ℕ
  pub signature : ℕ
  pub volume_id : ℕ
  pub volume_id_string : List ℕ
  pub system_id_string : List ℕ

pub record FatH : Type 0 where
  pub primary_header : FatHeader
  pub extender_header : FatHeaderExtended

pub record FatDirectoryItem : Type 0 where
  pub filename : List ℕ
  pub ext : List ℕ
  pub attribute : ℕ
  pub reserved : ℕ
  pub creation_time_tenths_of_a_second : ℕ
  pub creation_time : ℕ
  pub creation_date : ℕ
  pub last_access : ℕ
  pub hi_16bits_first_cluster : ℕ
  pub last_modification_time : ℕ
  pub last_modification_date : ℕ
  pub lo_16bits_first_cluster : ℕ
  pub filesize : ℕ

-- `item` is an array: its address and its elements.
pub record FatDirectory : Type 0 where
  pub item_address : ℕ
  pub item : List FatDirectoryItem
  pub total : ℕ
  pub sector_pos : ℕ
  pub sector_pos_end : ℕ

pub record FatPrivate : Type 0 where
  pub header : FatH
  pub root_directory : FatDirectory

-- Only `fat_read_stream` is ever tested for null, which is `none`.
pub record FatStreams : Type 0 where
  pub cluster_read_stream : DiskStream
  pub fat_read_stream : Option DiskStream
  pub directory_read_stream : DiskStream
