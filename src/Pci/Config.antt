-- ===== src/Pci/Config.antt =====
-- What src/pci.rs reads in memory: the MCFG table and the configuration space of a device. A
-- `&'static` reference into the configuration space is its address, and `mem` gives the byte at an
-- address. `p` tells whether the build checks for overflow.
use lobster_os_legacy.Prelude.{
  ℕ, zero, suc, ◌+◌, ◌/◌, ◌%◌, ◌^◌, List, [], ◌∷◌, Run, ok, ◌>>=◌, Profile, sub_mod, u32_mod, u8_at,
  u16_at, u32_at, u64_at, bytes_at,
}

pub record McfgEntry : Type 0 where
  pub config_space : ℕ
  pub segment_group : ℕ
  pub start_bus : ℕ
  pub end_bus : ℕ
  pub reserved : ℕ

unfoldable pub mcfg_entry_at : (ℕ → ℕ) → ℕ → McfgEntry
mcfg_entry_at mem a = record {
  config_space = u64_at mem a;
  segment_group = u16_at mem (a + 8);
  start_bus = u8_at mem (a + 10);
  end_bus = u8_at mem (a + 11);
  reserved = u32_at mem (a + 12);
}

-- `size_of` of the packed structures.
abbrev pub size_of_sdt_header : ℕ
size_of_sdt_header = 36

abbrev pub size_of_mcfg_entry : ℕ
size_of_mcfg_entry = 16

abbrev entries_from : (ℕ → ℕ) → ℕ → ℕ → List McfgEntry
entries_from mem zero a = []
entries_from mem (suc n) a = mcfg_entry_at mem a ∷ entries_from mem n (a + size_of_mcfg_entry)

-- `MCFGTable::from_header` at the address of a header; the length is that of the whole table.
unfoldable pub from_header : Profile → (ℕ → ℕ) → ℕ → Run (List McfgEntry)
unfolding mcfg_entry_at
from_header p mem header = do
  let entries_start_addr = header + size_of_sdt_header + 8
  rest ← sub_mod p u32_mod (u32_at mem (header + 4)) size_of_sdt_header
  body ← sub_mod p u32_mod rest 8
  ok (entries_from mem (body / size_of_mcfg_entry) entries_start_addr)

pub record CommandRegister : Type 0 where
  pub io_space : ℕ
  pub memory_space : ℕ
  pub bus_master : ℕ
  pub special_cycles : ℕ
  pub memory_write : ℕ
  pub vga_snoop : ℕ
  pub parity_error_response : ℕ
  pub reserved0 : ℕ
  pub serr_enable : ℕ
  pub fast_b2b_enable : ℕ
  pub interrupt_disable : ℕ
  pub reserved1 : ℕ

-- The bits of the register, lowest first.
pub command_register : ℕ → CommandRegister
command_register c = record {
  io_space = c % 2;
  memory_space = c / 2 % 2;
  bus_master = c / 2 ^ 2 % 2;
  special_cycles = c / 2 ^ 3 % 2;
  memory_write = c / 2 ^ 4 % 2;
  vga_snoop = c / 2 ^ 5 % 2;
  parity_error_response = c / 2 ^ 6 % 2;
  reserved0 = c / 2 ^ 7 % 2;
  serr_enable = c / 2 ^ 8 % 2;
  fast_b2b_enable = c / 2 ^ 9 % 2;
  interrupt_disable = c / 2 ^ 10 % 2;
  reserved1 = c / 2 ^ 11 % 2 ^ 5;
}

pub record DeviceConfigurationSpace : Type 0 where
  pub vendor_id : ℕ
  pub device_id : ℕ
  pub command : CommandRegister
  pub status : ℕ
  pub revision_id : ℕ
  pub prog_if : ℕ
  pub subclass : ℕ
  pub class_code : ℕ
  pub cache_line_size : ℕ
  pub latency_timer : ℕ
  pub header_type : ℕ
  pub bist : ℕ
  pub bar_0 : ℕ
  pub bar_1 : ℕ
  pub bar_2 : ℕ
  pub bar_3 : ℕ
  pub bar_4 : ℕ
  pub bar_5 : ℕ
  pub cis_ptr : ℕ
  pub subsystem_vendor_id : ℕ
  pub subsystem_id : ℕ
  pub expansion_rom_base : ℕ
  pub capabilities_ptr : ℕ
  pub reserved : List ℕ
  pub interrupt_line : ℕ
  pub interrupt_pin : ℕ
  pub min_grant : ℕ
  pub max_latency : ℕ

-- `DeviceConfigurationSpace::from_addr`; the fields up to `bist` are those of
-- `BaseConfigurationSpace`.
unfoldable pub from_addr : (ℕ → ℕ) → ℕ → DeviceConfigurationSpace
from_addr mem a = record {
  vendor_id = u16_at mem a;
  device_id = u16_at mem (a + 2);
  command = command_register (u16_at mem (a + 4));
  status = u16_at mem (a + 6);
  revision_id = u8_at mem (a + 8);
  prog_if = u8_at mem (a + 9);
  subclass = u8_at mem (a + 10);
  class_code = u8_at mem (a + 11);
  cache_line_size = u8_at mem (a + 12);
  latency_timer = u8_at mem (a + 13);
  header_type = u8_at mem (a + 14);
  bist = u8_at mem (a + 15);
  bar_0 = u32_at mem (a + 16);
  bar_1 = u32_at mem (a + 20);
  bar_2 = u32_at mem (a + 24);
  bar_3 = u32_at mem (a + 28);
  bar_4 = u32_at mem (a + 32);
  bar_5 = u32_at mem (a + 36);
  cis_ptr = u32_at mem (a + 40);
  subsystem_vendor_id = u16_at mem (a + 44);
  subsystem_id = u16_at mem (a + 46);
  expansion_rom_base = u32_at mem (a + 48);
  capabilities_ptr = u8_at mem (a + 52);
  reserved = bytes_at mem 7 (a + 53);
  interrupt_line = u8_at mem (a + 60);
  interrupt_pin = u8_at mem (a + 61);
  min_grant = u8_at mem (a + 62);
  max_latency = u8_at mem (a + 63);
}

pub record DeviceIdentification : Type 0 where
  pub class : ℕ
  pub subclass : ℕ
  pub interface : ℕ

pub get_identification : DeviceConfigurationSpace → DeviceIdentification
get_identification c = record { class = c.class_code; subclass = c.subclass; interface = c.prog_if }

pub get_bars : DeviceConfigurationSpace → List ℕ
get_bars c = c.bar_0 ∷ c.bar_1 ∷ c.bar_2 ∷ c.bar_3 ∷ c.bar_4 ∷ c.bar_5 ∷ []
