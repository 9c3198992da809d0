-- ===== src/Disk/Transfer.antt =====
-- `find_command_slot`, `read_sectors` and `write_sectors` of src/disk.rs. The ports are those of the
-- static `PORTS`, held by the caller. Loops that wait for the controller run on fuel.
use Prim.Native.Nat.{bit_and, bit_or}
use lobster_os_legacy.Prelude.{
  ℕ, zero, suc, ◌+◌, ◌-◌, ◌*◌, ◌/◌, ◌%◌, ◌^◌, ◌⊎◌, inl, inr, Option, none, some, List, Bool, true,
  false, ◌==◌, if◌then◌else◌, Run, ok, panic, out_of_fuel, ◌>>=◌, expect, Profile, sub_mod, u32_mod,
  u64_mod, get_elem?, set, length,
}
use lobster_os_legacy.Disk.{
  FisRegH2D, reg_h2d, fis_code, AhciPort, DiskAccessError, no_command_slots, task_file_error,
}
use lobster_os_legacy.Disk.Layout.{
  register_addr, offset_of, size_of, hba, fis_reg_h2d, interrupt_status, task_file_data,
  sata_active, command_issue,
}
use lobster_os_legacy.Disk.Port.{Hardware, wait}

-- The first slot below a bound whose bit is clear, from `i` on; `slots >> i` panics for a shift by 32
-- or more where the build checks for overflow, and shifts by the rest of 32 where it does not.
abbrev pub shift_right : Profile → ℕ → ℕ → Run ℕ
shift_right p slots i = elim p [
  | Profile.debug ↦ if i / 32 == 0 then ok (slots / 2 ^ i) else panic
  | Profile.release ↦ ok (slots / 2 ^ (i % 32))
]

unfoldable pub free_slot : Profile → ℕ → ℕ → ℕ → Run (Option ℕ)
free_slot p slots zero i = ok none
free_slot p slots (suc n) i = do
  bits ← shift_right p slots i
  elim (bits % 2 == 0) [ true ↦ ok (some i) | false ↦ free_slot p slots n (i + 1) ]

-- The bytes of a 64-bit number, lowest first.
abbrev pub le_byte : ℕ → ℕ → ℕ
le_byte n k = n / 0x100 ^ k % 0x100

-- The fields of the command FIS that a transfer sets.
unfoldable pub fill_fis : ℕ → ℕ → ℕ → FisRegH2D → FisRegH2D
fill_fis command lba sector_count fis = record fis {
  fis_type = fis_code reg_h2d;
  c = 1;
  command = command;
  lba0 = le_byte lba 0;
  lba1 = le_byte lba 1;
  lba2 = le_byte lba 2;
  lba3 = le_byte lba 3;
  lba4 = le_byte lba 4;
  lba5 = le_byte lba 5;
  device = 64;
  count = sector_count;
}

module _ (p : Profile) (x : Hardware) (with_byte_count : ℕ → Run ℕ) where
  open x use {D, read_volatile, write_volatile, issue, alloc, translate_addr, load}

  abbrev pub Ports : Type 0
  Ports = List AhciPort

  unfoldable pub find_command_slot : AhciPort → D → Run (Option ℕ × D)
  unfolding free_slot
  find_command_slot port d = do
    let (active, d1) = read_volatile (register_addr port.hba_mem port.port sata_active) d
    let (issued, d2) = read_volatile (register_addr port.hba_mem port.port command_issue) d1
    let (capability, d3) = read_volatile (port.hba_mem + offset_of hba 0) d2
    slot ← free_slot p (bit_or active issued) (bit_and 0xF0 (capability / 2 ^ 8)) 0
    ok (slot, d3)

  -- The command header of the slot: the length of the FIS in words, and the direction.
  unfoldable pub set_header : ℕ → ℕ → AhciPort → Run AhciPort
  set_header slot direction port = do
    header ← expect (get_elem? port.command_list_buffer slot)
    let header' = record header { command_fis_length = size_of fis_reg_h2d / 4; write = direction }
    ok (record port { command_list_buffer = set port.command_list_buffer slot header' })

  -- The command table of the slot: the first PRDT entry and the command FIS. `with_byte_count` is
  -- that of the bit field of 22 bits, a function of the crate bitfield-struct.
  unfoldable pub set_table : ℕ → ℕ → ℕ → ℕ → ℕ → AhciPort → Run AhciPort
  unfolding fill_fis
  set_table slot command lba sector_count phys_addr port = do
    table ← expect (get_elem? port.command_table_buffers slot)
    prdt ← expect (get_elem? table.prdt_entries 0)
    last ← sub_mod p u64_mod (512 * sector_count) 1
    byte_count ← with_byte_count last
    let prdt' = record prdt { data_base = phys_addr; byte_count = byte_count; interrupt = 1 }
    let table' = record table {
      prdt_entries = set table.prdt_entries 0 prdt';
      command_fis = fill_fis command lba sector_count table.command_fis;
    }
    ok (record port { command_table_buffers = set port.command_table_buffers slot table' })

  -- What the loop does with its two tests: the slot's bit is clear, or the error bit is set.
  abbrev pub polled : Bool → Bool → D → D → Run (Bool × D) → Run (Bool × D)
  polled true failed d1 d2 rest = ok (true, d1)
  polled false true d1 d2 rest = ok (false, d2)
  polled false false d1 d2 rest = rest

  -- The loop that waits until the slot's bit is clear, or for the task file error bit.
  unfoldable pub wait_done : ℕ → ℕ → AhciPort → D → Run (Bool × D)
  wait_done zero slot port d = out_of_fuel
  wait_done (suc n) slot port d =
      let ci = read_volatile (register_addr port.hba_mem port.port command_issue) d in
      let is = read_volatile (register_addr port.hba_mem port.port interrupt_status) ci.1 in
      let rest = wait_done n slot port is.1 in
      polled (bit_and (2 ^ slot) ci.0 == 0) (is.0 / 2 ^ 30 % 2 == 1) ci.1 is.1 rest

  -- The error bit once more after the loop.
  abbrev pub check_done : AhciPort → Bool × D → Bool × D
  check_done port (false, d) = (false, d)
  check_done port (true, d) =
      let (is, d') = read_volatile (register_addr port.hba_mem port.port interrupt_status) d in
      (if is / 2 ^ 30 % 2 == 1 then false else true, d')

  -- From the wait for the device to the end of the command; whether it went well.
  unfoldable pub run_command : ℕ → ℕ → AhciPort → D → Run (Bool × D)
  unfolding wait_done
  run_command fuel slot port d = do
    d1 ←
        wait x fuel (register_addr port.hba_mem port.port task_file_data)
          (λ tfd. bit_and 0x88 tfd == 0) d
    let (ci, d2) = read_volatile (register_addr port.hba_mem port.port command_issue) d1
    done ← wait_done fuel slot port (issue port (bit_or ci (2 ^ slot)) d2)
    ok (check_done port done)

  -- A free slot of the port of a drive, whose pending interrupts are cleared first.
  unfoldable pub open_slot : ℕ → Ports → D → Run (AhciPort × ℕ × D)
  unfolding find_command_slot
  open_slot drive_num ports d = do
    port ← expect (get_elem? ports drive_num)
    let d1 = write_volatile (register_addr port.hba_mem port.port interrupt_status) (u32_mod - 1) d
    (slot, d2) ← find_command_slot port d1
    slot' ← expect slot
    ok (port, slot', d2)

  -- The result of a read: the buffer's bytes, read at its virtual address.
  abbrev pub read_result : ℕ → ℕ → Bool × D → DiskAccessError ⊎ List ℕ
  read_result buffer n (true, d) = inr (load buffer n d)
  read_result buffer n (false, d) = inl task_file_error

  abbrev pub write_result : Bool → Option DiskAccessError
  write_result true = none
  write_result false = some task_file_error

  -- `Vec::with_capacity` of bytes: none for an empty one, and a panic where the heap has no room.
  unfoldable pub with_capacity : ℕ → D → Run (ℕ × D)
  with_capacity size d =
      let r = alloc size 1 d in if size == 0 then ok (1, d) else if r.0 == 0 then panic else ok r

  -- The rest of a read once the buffer's physical address is known, or is not.
  abbrev pub read_mapped :
      ℕ
      → (drive_num lba sector_count buffer slot : ℕ) → AhciPort
      → Ports
      → D
      → Option ℕ
      → Run ((DiskAccessError ⊎ List ℕ) × Ports × D)
  read_mapped fuel drive_num lba sector_count buffer slot port1 ports d2 none =
      ok (inl no_command_slots, set ports drive_num port1, d2)
  read_mapped fuel drive_num lba sector_count buffer slot port1 ports d2 (some phys_addr) = do
    port2 ← set_table slot 0x25 lba sector_count phys_addr port1
    done ← run_command fuel slot port2 d2
    ok (read_result buffer (512 * sector_count) done, set ports drive_num port2, done.1)

  abbrev pub read_slot :
      ℕ
      → (drive_num lba sector_count : ℕ) → Ports
      → AhciPort × ℕ × D
      → Run ((DiskAccessError ⊎ List ℕ) × Ports × D)
  read_slot fuel drive_num lba sector_count ports (port, slot, d1) = do
    port1 ← set_header slot 0 port
    (buffer, d2) ← with_capacity (512 * sector_count) d1
    read_mapped fuel drive_num lba sector_count buffer slot port1 ports d2 (translate_addr buffer)

  unfoldable pub read_sectors :
      ℕ
      → (drive_num lba sector_count : ℕ) → Ports
      → D
      → Run ((DiskAccessError ⊎ List ℕ) × Ports × D)
  read_sectors fuel drive_num lba sector_count ports d =
      open_slot drive_num ports d >>= read_slot fuel drive_num lba sector_count ports

  -- The rest of a write once the buffer's physical address is known, or is not.
  abbrev pub write_mapped :
      ℕ
      → (drive_num lba sector_count slot : ℕ) → AhciPort
      → Ports
      → D
      → Option ℕ
      → Run (Option DiskAccessError × Ports × D)
  write_mapped fuel drive_num lba sector_count slot port1 ports d1 none =
      ok (some no_command_slots, set ports drive_num port1, d1)
  write_mapped fuel drive_num lba sector_count slot port1 ports d1 (some phys_addr) = do
    port2 ← set_table slot 0x35 lba sector_count phys_addr port1
    done ← run_command fuel slot port2 d1
    ok (write_result done.0, set ports drive_num port2, done.1)

  abbrev pub write_slot :
      ℕ
      → (drive_num lba sector_count buffer : ℕ) → Ports
      → AhciPort × ℕ × D
      → Run (Option DiskAccessError × Ports × D)
  write_slot fuel drive_num lba sector_count buffer ports (port, slot, d1) = do
    port1 ← set_header slot 1 port
    write_mapped fuel drive_num lba sector_count slot port1 ports d1 (translate_addr buffer)

  -- `buffer` is the address of the bytes that are written; `none` is success.
  unfoldable pub write_sectors :
      ℕ
      → (drive_num lba sector_count buffer : ℕ) → Ports
      → D
      → Run (Option DiskAccessError × Ports × D)
  write_sectors fuel drive_num lba sector_count buffer ports d =
      open_slot drive_num ports d >>= write_slot fuel drive_num lba sector_count buffer ports

abbrev pub get_disk_count : List AhciPort → ℕ
get_disk_count = length
