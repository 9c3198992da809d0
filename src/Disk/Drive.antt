-- ===== src/Disk/Drive.antt =====
-- What a disk promises to the driver, as laws on the hardware, and that a read keeps the promise to
-- the file system.
use Prim.Native.Nat.{bit_and}
use lobster_os_legacy.Prelude.{
  ◌<◌, ap, ◌∙◌, arith, ℕ, suc, ◌+◌, ◌-◌, ◌*◌, ◌/◌, ◌%◌, ◌^◌, ◌≤◌, ◌≡◌, ◌≢◌, some, List, u32_mod,
  get_elem?,
}
use lobster_os_legacy.Disk.{FisRegH2D, HbaCommandHeader, HbaCommandTable, HbaPrdtEntry, AhciPort}
use lobster_os_legacy.Disk.Layout.{
  register_addr, offset_of, hba, interrupt_status, task_file_data, sata_active, command_issue,
}
use lobster_os_legacy.Disk.Port.{Hardware}

-- The 48-bit sector number that a command FIS spells.
abbrev pub fis_lba : FisRegH2D → ℕ
fis_lba f =
    f.lba0
    + 0x100 * (f.lba1 + 0x100 * (f.lba2 + 0x100 * (f.lba3 + 0x100 * (f.lba4 + 0x100 * f.lba5))))

-- In slot 0 stands a command, with its direction, its sectors and a buffer.
pub record IsCommand (direction command : ℕ) (port : AhciPort) (phys lba count : ℕ) : Type 0 where
  pub header : HbaCommandHeader
  pub header_at : get_elem? port.command_list_buffer 0 ≡ some header
  pub entries : 1 ≤ header.prdt_length
  pub words : header.command_fis_length ≡ 5
  pub written : header.write ≡ direction
  pub table : HbaCommandTable
  pub table_at : get_elem? port.command_table_buffers 0 ≡ some table
  pub kind : table.command_fis.fis_type ≡ 0x27
  pub is_command : table.command_fis.c ≡ 1
  pub command_is : table.command_fis.command ≡ command
  pub sectors : fis_lba table.command_fis ≡ lba
  pub sector_count : table.command_fis.count ≡ count
  pub entry : HbaPrdtEntry
  pub entry_at : get_elem? table.prdt_entries 0 ≡ some entry
  pub base : entry.data_base ≡ phys
  pub bytes : entry.byte_count + 1 ≡ 512 * count

-- READ DMA EXT, from the device to memory.
abbrev pub IsRead : AhciPort → ℕ → ℕ → ℕ → Type 0
IsRead = IsCommand 0 0x25

-- WRITE DMA EXT, from memory to the device.
abbrev pub IsWrite : AhciPort → ℕ → ℕ → ℕ → Type 0
IsWrite = IsCommand 1 0x35

-- A port is set up: a command header and a command table with a PRDT entry for slot 0.
pub record IsSetUp (port : AhciPort) : Type 0 where
  pub header : HbaCommandHeader
  pub header_at : get_elem? port.command_list_buffer 0 ≡ some header
  pub entries : 1 ≤ header.prdt_length
  pub table : HbaCommandTable
  pub table_at : get_elem? port.command_table_buffers 0 ≡ some table
  pub entry : HbaPrdtEntry
  pub entry_at : get_elem? table.prdt_entries 0 ≡ some entry

-- The bytes of a buffer lie one after another in physical memory, as a PRDT entry addresses them.
abbrev pub IsContiguous : Hardware → (buffer n phys : ℕ) → Type 0
IsContiguous x buffer n phys = (i : ℕ) → i < n → x.translate_addr (buffer + i) ≡ some (phys + i)

pub contiguous_start :
    (x : Hardware) (buffer n phys : ℕ)
    → 1 ≤ n
    → IsContiguous x buffer n phys
    → x.translate_addr buffer ≡ some phys
contiguous_start x buffer n phys some_bytes all =
    let here : buffer ≡ buffer + 0 = omega arith in
    let there : phys + 0 ≡ phys = omega arith in
    ap x.translate_addr here ∙ all 0 (omega arith) ∙ ap some there

-- The heap has a buffer for some bytes, and its bytes are contiguous.
abbrev pub IsPlaced : (x : Hardware) → ℕ → x.D → Type 0
IsPlaced x n d = let r = x.alloc n 1 d in (r.0 ≢ 0) × (phys : ℕ) × IsContiguous x r.0 n phys

-- A drive at a port that holds the image, and the heap: idle, with room on the heap for the contiguous
-- buffers of some sectors; or busy for `n` more polls with a read into a buffer. No other commands are
-- outstanding, and no transfer fails.
pub record Drive (x : Hardware) (hba_mem number bound : ℕ) (image : ℕ → ℕ → List ℕ) : Type 1 where
  pub Idle : (room : ℕ) → x.D → Type 0
  pub Busy : (room n buffer lba count : ℕ) → x.D → Type 0
  pub clear :
      (room : ℕ) (d : x.D)
      → Idle room d
      → Idle room (x.write_volatile (register_addr hba_mem number interrupt_status) (u32_mod - 1) d)
  pub heap :
      (count room : ℕ) (d : x.D)
      → 1 ≤ count
      → Idle (count + room) d
      → IsPlaced x (512 * count) d × Idle room (x.alloc (512 * count) 1 d).1
  pub no_active :
      (room : ℕ) (d : x.D)
      → Idle room d
      → let r = x.read_volatile (register_addr hba_mem number sata_active) d in
        (r.0 ≡ 0) × Idle room r.1
  pub no_issued :
      (room : ℕ) (d : x.D)
      → Idle room d
      → let r = x.read_volatile (register_addr hba_mem number command_issue) d in
        (r.0 ≡ 0) × Idle room r.1
  -- The upper bit of the count of command slots is set: there are 17 slots or more.
  pub slots :
      (room : ℕ) (d : x.D)
      → Idle room d
      → let r = x.read_volatile (hba_mem + offset_of hba 0) d in
        (r.0 / 2 ^ 12 % 16 ≡ 1) × Idle room r.1
  -- Neither busy nor in a data request.
  pub ready :
      (room : ℕ) (d : x.D)
      → Idle room d
      → let r = x.read_volatile (register_addr hba_mem number task_file_data) d in
        (bit_and 0x88 r.0 ≡ 0) × Idle room r.1
  pub start :
      (room : ℕ) (d : x.D) (port : AhciPort) (phys buffer lba count : ℕ)
      → Idle room d
      → port.hba_mem ≡ hba_mem
      → port.port ≡ number
      → IsRead port phys lba count
      → IsContiguous x buffer (512 * count) phys
      → (n : ℕ) × (n ≤ bound) × Busy room n buffer lba count (x.issue port 1 d)
  pub working :
      (room : ℕ) (d : x.D) (n buffer lba count : ℕ)
      → Busy room (suc n) buffer lba count d
      → let ci = x.read_volatile (register_addr hba_mem number command_issue) d in
        let is = x.read_volatile (register_addr hba_mem number interrupt_status) ci.1 in
        (bit_and 1 ci.0 ≢ 0) × (is.0 / 2 ^ 30 % 2 ≡ 0) × Busy room n buffer lba count is.1
  pub finished :
      (room : ℕ) (d : x.D) (buffer lba count : ℕ)
      → Busy room 0 buffer lba count d
      → let ci = x.read_volatile (register_addr hba_mem number command_issue) d in
        let is = x.read_volatile (register_addr hba_mem number interrupt_status) ci.1 in
        (bit_and 1 ci.0 ≡ 0)
        × (is.0 / 2 ^ 30 % 2 ≡ 0)
        × Idle room is.1
        × (x.load buffer (512 * count) is.1 ≡ image lba count)
