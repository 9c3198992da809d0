-- ===== src/Disk/Port.antt =====
-- `init` and `init_device` of src/disk.rs. `Hardware` is what the driver runs against: registers and
-- memory by address, in a state that every access may change, as the controller works on its own;
-- the kernel's heap; and the page tables' translation of a virtual address.
use Prim.Native.Nat.{bit_and, bit_or}
use lobster_os_legacy.Prelude.{
  ℕ, zero, suc, ◌+◌, ◌*◌, ◌/◌, ◌%◌, ◌^◌, Option, List, [], ◌∷◌, ◌++◌, Bool, true, false, ◌==◌, ◌&&◌,
  not, if◌then◌else◌, Run, ok, out_of_fuel, ◌>>=◌, expect, u32_mod, replicate,
}
use lobster_os_legacy.Pci.Config.{DeviceConfigurationSpace, get_identification}
use lobster_os_legacy.Disk.{FisRegH2D, HbaCommandHeader, HbaCommandTable, AhciPort}
use lobster_os_legacy.Disk.Layout.{
  Register, register_addr, offset_of, hba, command_status, sata_status, cl_base, cl_base_upper,
  fis_base, fis_base_upper,
}

pub record Hardware : Type 1 where
  pub D : Type 0
  pub read_volatile : ℕ → D → ℕ × D
  pub write_volatile : ℕ → ℕ → D → D
  -- A write to the command issue register: the controller reads the port's command list and tables.
  pub issue : AhciPort → ℕ → D → D
  -- The kernel's heap, by size and alignment; 0 is the null pointer, where it has no room.
  pub alloc : ℕ → ℕ → D → ℕ × D
  pub translate_addr : ℕ → Option ℕ
  -- What uninitialised memory at an address holds as a command list, and the bytes from an address on.
  pub command_list_at : ℕ → D → List HbaCommandHeader
  pub load : ℕ → ℕ → D → List ℕ

-- All bytes 0.
abbrev pub zero_fis : FisRegH2D
zero_fis = record {
  fis_type = 0;
  pmport = 0;
  reserved0 = 0;
  c = 0;
  command = 0;
  feature_low = 0;
  lba0 = 0;
  lba1 = 0;
  lba2 = 0;
  device = 0;
  lba3 = 0;
  lba4 = 0;
  lba5 = 0;
  feature_high = 0;
  count = 0;
  icc = 0;
  control = 0;
  reserved1 = replicate 4 0;
}

abbrev pub zero_table : HbaCommandTable
zero_table = record {
  command_fis = zero_fis;
  atapi_command = replicate 16 0;
  prdt_entries = replicate 8 (record { data_base = 0; byte_count = 0; interrupt = 0 });
}

-- The filter of `init`: SATA controllers with the AHCI interface.
abbrev pub is_ahci : DeviceConfigurationSpace → Bool
is_ahci c =
    let d = get_identification c in (d.class == 0x1) && (d.subclass == 0x6) && (d.interface == 0x1)

module _ (x : Hardware) where
  open x use {D, read_volatile, write_volatile, alloc, translate_addr, command_list_at}

  -- What a loop that waits does with the test of a value that it read.
  abbrev pub waited : Bool → D → Run D → Run D
  waited true d rest = ok d
  waited false d rest = rest

  -- A loop that reads a register until its value passes a test.
  unfoldable pub wait : ℕ → ℕ → (ℕ → Bool) → D → Run D
  wait zero a done d = out_of_fuel
  wait (suc n) a done d =
      let r = read_volatile a d in let rest = wait n a done r.1 in waited (done r.0) r.1 rest

  -- Clears the start bit and the FIS receive bit, and waits until both engines have stopped.
  unfoldable pub stop_port : ℕ → ℕ → ℕ → D → Run D
  unfolding wait
  stop_port fuel hba_ptr i d =
      let (v, d1) = read_volatile (register_addr hba_ptr i command_status) d in
      let d2 =
        write_volatile (register_addr hba_ptr i command_status)
          (bit_and 0xFFFFFFEF (bit_and 0xFFFFFFFE v)) d1 in
      wait fuel (register_addr hba_ptr i command_status)
        (λ c. (bit_and 0x4000 c == 0) && (bit_and 0x8000 c == 0)) d2

  -- The two halves of a physical address.
  unfoldable pub write_base : ℕ → ℕ → Register → Register → ℕ → D → D
  write_base hba_ptr i low high phys_addr d =
      write_volatile (register_addr hba_ptr i high) (phys_addr / 2 ^ 32 % u32_mod)
        (write_volatile (register_addr hba_ptr i low) (phys_addr % u32_mod) d)

  -- A zeroed table for each command header.
  unfoldable pub setup_tables :
      List HbaCommandHeader → D → Run (List HbaCommandHeader × List HbaCommandTable × D)
  setup_tables [] d = ok ([], [], d)
  setup_tables (h ∷ hs) d = do
    let (table, d1) = alloc (32 * 256) 128 d
    phys_addr ← expect (translate_addr table)
    (headers, tables, d2) ← setup_tables hs d1
    ok (
      record h { command_table_descriptor_base = phys_addr; prdt_length = 8 } ∷ headers,
      zero_table ∷ tables,
      d2,
    )

  -- Sets the start bit, and bit 8.
  unfoldable pub start_port : ℕ → ℕ → ℕ → D → Run D
  unfolding wait
  start_port fuel hba_ptr i d = do
    d1 ← wait fuel (register_addr hba_ptr i command_status) (λ c. bit_and 0x8000 c == 0) d
    let (v, d2) = read_volatile (register_addr hba_ptr i command_status) d1
    ok (write_volatile (register_addr hba_ptr i command_status) (bit_or 0x101 v) d2)

  unfoldable pub setup_port : ℕ → ℕ → ℕ → D → Run (AhciPort × D)
  setup_port fuel hba_ptr i d = do
    d1 ← stop_port fuel hba_ptr i d
    let (list, d2) = alloc 1024 1024 d1
    list_phys ← expect (translate_addr list)
    let d3 = write_base hba_ptr i cl_base cl_base_upper list_phys d2
    let (fis, d4) = alloc 256 256 d3
    fis_phys ← expect (translate_addr fis)
    let d5 = write_base hba_ptr i fis_base fis_base_upper fis_phys d4
    (headers, tables, d6) ← setup_tables (command_list_at list d5) d5
    d7 ← start_port fuel hba_ptr i d6
    let port : AhciPort = record {
      hba_mem = hba_ptr;
      port = i;
      command_list_buffer = headers;
      fis_buffer = fis;
      command_table_buffers = tables;
    }
    ok (port, d7)

  -- A round of the loop over the ports: one that is implemented and has a device is set up.
  unfoldable pub init_port : ℕ → ℕ → ℕ → List AhciPort → D → Run (List AhciPort × D)
  unfolding setup_port
  init_port fuel hba_ptr i ports d =
      let (implemented, d1) = read_volatile (hba_ptr + offset_of hba 3) d in
      if bit_and (2 ^ i) implemented == 0
      then ok (ports, d1)
      else (let (sata, d2) = read_volatile (register_addr hba_ptr i sata_status) d1 in
          if not (bit_and 0x101 sata == 0x101)
          then ok (ports, d2)
          else (do (port, d3) ← setup_port fuel hba_ptr i d2; ok (ports ++ (port ∷ []), d3)))

  unfoldable pub init_ports : ℕ → ℕ → ℕ → ℕ → List AhciPort → D → Run (List AhciPort × D)
  unfolding init_port
  init_ports fuel zero i hba_ptr ports d = ok (ports, d)
  init_ports fuel (suc n) i hba_ptr ports d = do
    (more, d') ← init_port fuel hba_ptr i ports d
    init_ports fuel n (i + 1) hba_ptr more d'

  unfoldable pub init_device :
      ℕ → ℕ → List AhciPort → DeviceConfigurationSpace → D → Run (List AhciPort × D)
  unfolding init_ports
  init_device fuel phys_offset ports controller d =
      init_ports fuel 32 0 (controller.bar_5 + phys_offset) ports d

  -- The controllers among the devices, one after another.
  unfoldable pub init :
      ℕ → ℕ → List DeviceConfigurationSpace → List AhciPort → D → Run (List AhciPort × D)
  unfolding init_device
  init fuel phys_offset [] ports d = ok (ports, d)
  init fuel phys_offset (c ∷ cs) ports d =
      if is_ahci c
      then (do
        (more, d') ← init_device fuel phys_offset ports c d
        init fuel phys_offset cs more d')
      else init fuel phys_offset cs ports d
