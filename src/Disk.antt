-- ===== src/Disk.antt =====
-- The AHCI driver, src/disk.rs: the structures that the controller shares with the driver. The
-- layouts of the packed structures are in `Layout`, the set-up of a port in `Port`, and reads and
-- writes in `Transfer`.
mod Layout
pub mod Port
pub mod Transfer
mod Slots
pub mod Drive
pub mod Calm
mod Startable
mod Prepared
mod PreparedTests
mod Commands
mod Filled
mod Writable
mod Writes
pub mod Serves
pub mod Sample
mod WritableSample
mod Failing
mod FailingTests
mod Tests
use lobster_os_legacy.Prelude.{ℕ, List, u8_at, ◌%◌, ◌/◌, ◌^◌}

pub data FisType : Type 0 where
  reg_h2d : FisType
  reg_d2h : FisType
  dma_activate : FisType
  dma_setup : FisType
  data_fis : FisType
  bist_fis : FisType
  pio_setup : FisType
  device_bits : FisType

-- The discriminants.
abbrev pub fis_code : FisType → ℕ
fis_code reg_h2d = 0x27
fis_code reg_d2h = 0x34
fis_code dma_activate = 0x39
fis_code dma_setup = 0x41
fis_code data_fis = 0x46
fis_code bist_fis = 0x58
fis_code pio_setup = 0x5F
fis_code device_bits = 0xA1

-- `bit_field` is written out: `pmport`, `reserved0` and `c`.
pub record FisRegH2D : Type 0 where
  pub fis_type : ℕ
  pub pmport : ℕ
  pub reserved0 : ℕ
  pub c : ℕ
  pub command : ℕ
  pub feature_low : ℕ
  pub lba0 : ℕ
  pub lba1 : ℕ
  pub lba2 : ℕ
  pub device : ℕ
  pub lba3 : ℕ
  pub lba4 : ℕ
  pub lba5 : ℕ
  pub feature_high : ℕ
  pub count : ℕ
  pub icc : ℕ
  pub control : ℕ
  pub reserved1 : List ℕ

-- The two bit fields of the command header, written out.
pub record HbaCommandHeader : Type 0 where
  pub command_fis_length : ℕ
  pub atapi : ℕ
  pub write : ℕ
  pub prefetchable : ℕ
  pub reset : ℕ
  pub bist : ℕ
  pub clear : ℕ
  pub reserved : ℕ
  pub pmp : ℕ
  pub prdt_length : ℕ
  pub prd_byte_count : ℕ
  pub command_table_descriptor_base : ℕ

pub record HbaPrdtEntry : Type 0 where
  pub data_base : ℕ
  pub byte_count : ℕ
  pub interrupt : ℕ

-- `command_fis` is the register FIS that the driver writes there.
pub record HbaCommandTable : Type 0 where
  pub command_fis : FisRegH2D
  pub atapi_command : List ℕ
  pub prdt_entries : List HbaPrdtEntry

-- A port that was set up, by its number at the controller; `fis_buffer` is an address. The command
-- list has 32 entries, each with its table.
pub record AhciPort : Type 0 where
  pub hba_mem : ℕ
  pub port : ℕ
  pub command_list_buffer : List HbaCommandHeader
  pub fis_buffer : ℕ
  pub command_table_buffers : List HbaCommandTable

pub data DiskAccessError : Type 0 where
  no_command_slots : DiskAccessError
  task_file_error : DiskAccessError
