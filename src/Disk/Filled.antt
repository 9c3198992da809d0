-- ===== src/Disk/Filled.antt =====
-- What `set_header` and `set_table` of a transfer leave at a port.
use lobster_os_legacy.Prelude.{
  ℕ, ◌-◌, ◌*◌, ◌^◌, ◌≤◌, ◌<◌, ◌≡◌, refl, List, Run, ok, ◌>>=◌, expect, Profile, sub_mod-ok, u64_mod,
  get_elem?-set_self, get_elem?-lt, set, arith,
}
use lobster_os_legacy.Disk.{HbaCommandHeader, HbaCommandTable, AhciPort}
use lobster_os_legacy.Disk.Port.{Hardware}
use lobster_os_legacy.Disk.Drive.{IsCommand, IsSetUp}
use lobster_os_legacy.Disk.Transfer.{fill_fis, set_header, set_table}
use lobster_os_legacy.Disk.Calm.{with_memory}

abbrev pub still_set_up :
    {direction command phys lba count : ℕ} {port : AhciPort}
    → IsCommand direction command port phys lba count
    → IsSetUp port
still_set_up is = record {
  header = is.header;
  header_at = is.header_at;
  entries = is.entries;
  table = is.table;
  table_at = is.table_at;
  entry = is.entry;
  entry_at = is.entry_at;
}

module _ (p : Profile) (x : Hardware) (with_byte_count : ℕ → Run ℕ) (port : AhciPort)
    (byte_count-ok : (n : ℕ) → n < 2 ^ 22 → with_byte_count n ≡ ok n) (up : IsSetUp port)
    (direction command : ℕ) where
  abbrev pub headers : List HbaCommandHeader
  headers =
      set port.command_list_buffer 0
        (record up.header { command_fis_length = 5; write = direction })

  abbrev command_table : ℕ → ℕ → ℕ → HbaCommandTable
  command_table phys lba count = record up.table {
    prdt_entries =
        set up.table.prdt_entries 0
          (record up.entry { data_base = phys; byte_count = 512 * count - 1; interrupt = 1 });
    command_fis = fill_fis command lba count up.table.command_fis;
  }

  abbrev pub tables : ℕ → ℕ → ℕ → List HbaCommandTable
  tables phys lba count = set port.command_table_buffers 0 (command_table phys lba count)

  pub set_header-ok :
      set_header p x with_byte_count 0 direction port
      ≡ ok (with_memory port headers port.command_table_buffers)
  unfolding set_header
  set_header-ok = rw (up.header_at, expect, ◌>>=◌) refl

  pub set_table-ok :
      (phys lba count : ℕ)
      → 1 ≤ count
      → count ≤ 8192
      → set_table p x with_byte_count 0 command lba count phys
          (with_memory port headers port.command_table_buffers)
        ≡ ok (with_memory port headers (tables phys lba count))
  unfolding set_table
  set_table-ok phys lba count some_sectors few =
      rw
        (
          up.table_at,
          expect,
          ◌>>=◌,
          up.entry_at,
          sub_mod-ok p u64_mod (512 * count) 1 (omega arith),
          byte_count-ok (512 * count - 1) (omega arith),
        )
        refl

  pub filled-IsCommand :
      (phys lba count : ℕ)
      → 1 ≤ count
      → lba < 2 ^ 48
      → IsCommand direction command
          (with_memory port headers (tables phys lba count))
          phys
          lba
          count
  unfolding fill_fis
  filled-IsCommand phys lba count some_sectors small = record {
    header = record up.header { command_fis_length = 5; write = direction };
    header_at =
        get_elem?-set_self port.command_list_buffer 0 _
          (get_elem?-lt port.command_list_buffer 0 up.header_at);
    entries = up.entries;
    words = refl;
    written = refl;
    table = command_table phys lba count;
    table_at =
        get_elem?-set_self port.command_table_buffers 0 _
          (get_elem?-lt port.command_table_buffers 0 up.table_at);
    kind = refl;
    is_command = refl;
    command_is = refl;
    sectors = omega arith;
    sector_count = refl;
    entry = record up.entry { data_base = phys; byte_count = 512 * count - 1; interrupt = 1 };
    entry_at =
        get_elem?-set_self up.table.prdt_entries 0 _
          (get_elem?-lt up.table.prdt_entries 0 up.entry_at);
    base = refl;
    bytes = omega arith;
  }
