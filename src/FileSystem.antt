-- ===== src/FileSystem.antt =====
-- The FAT file system of src/fs.rs: the boot sector, directory entries and a file's data.
-- The walk over a directory is in `Directory`. A sector's bytes come from `read_sectors` of src/disk.rs, which the module takes as a parameter
-- of what the driver promises.
pub mod Directory
pub mod Data
pub mod Tree
mod Tests
use Prim.Native.Nat.{bit_or}
use lobster_os_legacy.Prelude.{
  ℕ, zero, suc, ◌+◌, ◌*◌, ◌/◌, ◌%◌, ◌^◌, ◌⊎◌, inl, inr, List, [], ◌∷◌, Bool, true, false, ◌==◌, ltb,
  ◌&&◌, ◌||◌, if◌then◌else◌, Run, ok, panic, out_of_fuel, ◌>>=◌, Profile, add_mod, sub_mod, mul_mod,
  checked_div, u16_mod, u32_mod, take, drop, get_or, length, leb, ◌-◌, ◌++◌,
}

pub record FatBootSector32Ext : Type 0 where
  pub table_size_32 : ℕ
  pub extended_flags : ℕ
  pub fat_version : ℕ
  pub root_cluster : ℕ
  pub fat_info : ℕ
  pub backup_boot_sector : ℕ
  pub reserved_0 : List ℕ
  pub drive_number : ℕ
  pub reserved_1 : ℕ
  pub boot_signature : ℕ
  pub volume_id : ℕ
  pub volume_label : List ℕ
  pub fat_type_label : List ℕ

pub record FatBootSector : Type 0 where
  pub boot_jmp : List ℕ
  pub oem_name : List ℕ
  pub bytes_per_sector : ℕ
  pub sectors_per_cluster : ℕ
  pub reserved_sector_count : ℕ
  pub table_count : ℕ
  pub root_entry_count : ℕ
  pub total_sectors_16 : ℕ
  pub media_type : ℕ
  pub table_size_16 : ℕ
  pub sectors_per_track : ℕ
  pub head_side_count : ℕ
  pub hidden_sector_count : ℕ
  pub total_sectors_32 : ℕ
  pub extended_section : FatBootSector32Ext

-- The little-endian fields of a byte array.
abbrev pub field16 : List ℕ → ℕ → ℕ
field16 b i = get_or b i 0 + 0x100 * get_or b (i + 1) 0

abbrev pub field32 : List ℕ → ℕ → ℕ
field32 b i = field16 b i + 0x10000 * field16 b (i + 2)

abbrev bytes_of : List ℕ → ℕ → ℕ → List ℕ
bytes_of b i n = take n (drop i b)

-- The `transmute` of a sector's first 90 bytes.
unfoldable pub boot_sector_of : List ℕ → FatBootSector
boot_sector_of b = record {
  boot_jmp = bytes_of b 0 3;
  oem_name = bytes_of b 3 8;
  bytes_per_sector = field16 b 11;
  sectors_per_cluster = get_or b 13 0;
  reserved_sector_count = field16 b 14;
  table_count = get_or b 16 0;
  root_entry_count = field16 b 17;
  total_sectors_16 = field16 b 19;
  media_type = get_or b 21 0;
  table_size_16 = field16 b 22;
  sectors_per_track = field16 b 24;
  head_side_count = field16 b 26;
  hidden_sector_count = field32 b 28;
  total_sectors_32 = field32 b 32;
  extended_section = record {
    table_size_32 = field32 b 36;
    extended_flags = field16 b 40;
    fat_version = field16 b 42;
    root_cluster = field32 b 44;
    fat_info = field16 b 48;
    backup_boot_sector = field16 b 50;
    reserved_0 = bytes_of b 52 12;
    drive_number = get_or b 64 0;
    reserved_1 = get_or b 65 0;
    boot_signature = get_or b 66 0;
    volume_id = field32 b 67;
    volume_label = bytes_of b 71 11;
    fat_type_label = bytes_of b 82 8;
  };
}

pub record FileAttributes : Type 0 where
  pub read_only : ℕ
  pub hidden : ℕ
  pub system : ℕ
  pub volume_id : ℕ
  pub directory : ℕ
  pub archive : ℕ
  pub reserved : ℕ

abbrev pub file_attributes : ℕ → FileAttributes
file_attributes a = record {
  read_only = a % 2;
  hidden = a / 2 % 2;
  system = a / 4 % 2;
  volume_id = a / 8 % 2;
  directory = a / 16 % 2;
  archive = a / 32 % 2;
  reserved = a / 64 % 4;
}

pub record FileTime : Type 0 where
  pub seconds : ℕ
  pub minutes : ℕ
  pub hours : ℕ

abbrev pub file_time : ℕ → FileTime
file_time t = record {
  seconds = t % 2 ^ 5;
  minutes = t / 2 ^ 5 % 2 ^ 6;
  hours = t / 2 ^ 11 % 2 ^ 5;
}

pub record FileDate : Type 0 where
  pub day : ℕ
  pub month : ℕ
  pub year : ℕ

abbrev pub file_date : ℕ → FileDate
file_date d = record { day = d % 2 ^ 5; month = d / 2 ^ 5 % 2 ^ 4; year = d / 2 ^ 9 % 2 ^ 7 }

pub record File : Type 0 where
  pub name : List ℕ
  pub attributes : FileAttributes
  pub reserved : ℕ
  pub creation_duration : ℕ
  pub creation_time : FileTime
  pub creation_date : FileDate
  pub last_accessed : FileDate
  pub cluster_h : ℕ
  pub modified_time : FileTime
  pub modified_date : FileDate
  pub cluster_l : ℕ
  pub file_size : ℕ

-- The cast of a directory entry's bytes.
unfoldable pub file_of : List ℕ → File
file_of b = record {
  name = take 11 b;
  attributes = file_attributes (get_or b 11 0);
  reserved = get_or b 12 0;
  creation_duration = get_or b 13 0;
  creation_time = file_time (field16 b 14);
  creation_date = file_date (field16 b 16);
  last_accessed = file_date (field16 b 18);
  cluster_h = field16 b 20;
  modified_time = file_time (field16 b 22);
  modified_date = file_date (field16 b 24);
  cluster_l = field16 b 26;
  file_size = field32 b 28;
}

-- A node of the tree and the list of its children, in the order in which they were pushed.
mutual
  pub data Node : Type 0 where
    node : File → Forest → Node

  pub data Forest : Type 0 where
    leaf : Forest
    branch : Node → Forest → Forest

unfoldable pub push_back : Forest → Node → Forest
push_back leaf n = branch n leaf
push_back (branch m f) n = branch m (push_back f n)

unfoldable pub get_data_addr : File → ℕ
get_data_addr f = bit_or f.cluster_l (f.cluster_h * 2 ^ 16)

abbrev pub fat_size : FatBootSector → ℕ
fat_size bs = if bs.table_size_16 == 0 then bs.extended_section.table_size_32 else bs.table_size_16

module _ (p : Profile) where
  -- In `u16`.
  unfoldable pub root_dir_sectors : FatBootSector → Run ℕ
  root_dir_sectors bs = do
    bytes ← mul_mod p u16_mod bs.root_entry_count 32
    up ← add_mod p u16_mod bytes bs.bytes_per_sector
    most ← sub_mod p u16_mod up 1
    checked_div most bs.bytes_per_sector

  unfoldable pub first_data_sector : FatBootSector → Run ℕ
  unfolding root_dir_sectors
  first_data_sector bs = do
    root ← root_dir_sectors bs
    tables ← mul_mod p u32_mod bs.table_count (fat_size bs)
    start ← add_mod p u32_mod bs.reserved_sector_count tables
    add_mod p u32_mod start root

  unfoldable pub first_sector : FatBootSector → ℕ → ℕ → Run ℕ
  first_sector bs data_sector cluster_idx = do
    cluster ← sub_mod p u32_mod cluster_idx 2
    sectors ← mul_mod p u32_mod cluster bs.sectors_per_cluster
    add_mod p u32_mod sectors data_sector

  -- `read_sectors` is that of the drive of `BOOT_SECTOR`, from a sector on and with a count of
  -- sectors, in the state `S` of the disk and its driver; `beyond` is what the memory behind the buffer holds, by its length.
  module _ {E S : Type 0} (read_sectors : ℕ → ℕ → S → Run ((E ⊎ List ℕ) × S))
      (beyond : ℕ → List ℕ) where
    -- `set_len` moves the end of the buffer alone.
    abbrev pub set_len : ℕ → E ⊎ List ℕ → E ⊎ List ℕ
    set_len n (inl e) = inl e
    set_len n (inr bytes) =
        if leb n (length bytes)
        then inr (take n bytes)
        else inr (bytes ++ beyond (n - length bytes))

    unfoldable pub get_data : FatBootSector → File → S → Run ((E ⊎ List ℕ) × S)
    unfolding first_data_sector first_sector get_data_addr
    get_data bs f s = do
      data_sector ← first_data_sector bs
      sector ← first_sector bs data_sector (get_data_addr f)
      whole ← checked_div f.file_size bs.bytes_per_sector
      sector_count ← add_mod p u32_mod whole 1
      (cluster_data, s') ← read_sectors sector (sector_count % u16_mod) s
      ok (set_len f.file_size cluster_data, s')
