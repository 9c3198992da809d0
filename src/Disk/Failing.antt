-- ===== src/Disk/Failing.antt =====
-- A drive whose transfers fail: `read_sectors` and `write_sectors` report it.
use Prim.Native.Nat.{bit_and}
use lobster_os_legacy.Prelude.{
  ℕ, suc, ◌+◌, ◌*◌, ◌/◌, ◌%◌, ◌^◌, ◌≤◌, ◌<◌, ◌≡◌, ◌≢◌, inl, refl, some, List, false, Run, ok,
  Profile, get_elem?, set,
}
use lobster_os_legacy.Disk.{AhciPort, task_file_error}
use lobster_os_legacy.Disk.Layout.{register_addr, interrupt_status, command_issue}
use lobster_os_legacy.Disk.Port.{Hardware}
use lobster_os_legacy.Disk.Drive.{IsCommand, IsSetUp}
use lobster_os_legacy.Disk.Transfer.{run_command, read_sectors, write_sectors}
use lobster_os_legacy.Disk.Calm.{with_memory, Calm}
use lobster_os_legacy.Disk.Commands.{open_slot-Idle, run_command-After}
use lobster_os_legacy.Disk.Filled.{headers, tables, filled-IsCommand}
use lobster_os_legacy.Disk.Serves.{read_port, read_sectors-done}
use lobster_os_legacy.Disk.Writes.{write_port, write_sectors-done}

-- Every command is taken, and after some polls it ends with the task file error bit, its slot still
-- in use.
pub record FailingDrive (x : Hardware) (hba_mem number bound : ℕ) : Type 1 where
  pub calm : Calm x hba_mem number
  pub heap : (size align : ℕ) (d : x.D) → calm.Idle d → calm.Idle (x.alloc size align d).1
  pub Doomed : ℕ → x.D → Type 0
  pub start :
      (d : x.D) (port : AhciPort) (direction command phys lba count : ℕ)
      → calm.Idle d
      → port.hba_mem ≡ hba_mem
      → port.port ≡ number
      → IsCommand direction command port phys lba count
      → (n : ℕ) × (n ≤ bound) × Doomed n (x.issue port 1 d)
  pub working :
      (d : x.D) (n : ℕ)
      → Doomed (suc n) d
      → let ci = x.read_volatile (register_addr hba_mem number command_issue) d in
        let is = x.read_volatile (register_addr hba_mem number interrupt_status) ci.1 in
        (bit_and 1 ci.0 ≢ 0) × (is.0 / 2 ^ 30 % 2 ≡ 0) × Doomed n is.1
  pub failed :
      (d : x.D)
      → Doomed 0 d
      → let ci = x.read_volatile (register_addr hba_mem number command_issue) d in
        let is = x.read_volatile (register_addr hba_mem number interrupt_status) ci.1 in
        (bit_and 1 ci.0 ≢ 0) × (is.0 / 2 ^ 30 % 2 ≡ 1)

module _ (p : Profile) (x : Hardware) (with_byte_count : ℕ → Run ℕ) (port : AhciPort) (bound : ℕ)
    (drive : FailingDrive x port.hba_mem port.port bound)
    (byte_count-ok : (n : ℕ) → n < 2 ^ 22 → with_byte_count n ≡ ok n) (up : IsSetUp port) where
  open x use {D, alloc, translate_addr}
  open drive use {calm, Doomed}

  run_command-failed :
      (fuel direction command phys lba count : ℕ) (d : D)
      → bound + 1 < fuel
      → 1 ≤ count
      → lba < 2 ^ 48
      → calm.Idle d
      → (d' : D) × (run_command p x with_byte_count fuel 0
            (with_memory port
              (headers p x with_byte_count port byte_count-ok up direction command)
              (tables p x with_byte_count port byte_count-ok up direction command phys lba count))
            d
          ≡ ok (false, d'))
  run_command-failed fuel direction command phys lba count d lt some_sectors small idle =
      let hs = headers p x with_byte_count port byte_count-ok up direction command in
      let ts = tables p x with_byte_count port byte_count-ok up direction command phys lba count in
      let is =
        filled-IsCommand p x with_byte_count port byte_count-ok up direction command phys lba count
          some_sectors small in
      let (d', done, after) =
        run_command-After p x with_byte_count port calm false hs ts Doomed (λ d. d ≡ d)
          (λ d n busy. drive.working d n busy)
          (λ d busy. let (set_bit, bit) = drive.failed d busy in (set_bit, bit, refl)) fuel bound d
          lt idle
          (λ d i.
            drive.start d (with_memory port hs ts) direction command phys lba count i refl refl
              is) in
      (d', done)

  -- A failed transfer is reported, in both directions. On an idle drive that keeps the laws of
  -- `FailingDrive`, a read and a write of 1 to 8192 sectors below 2^48 at its port, which is set up,
  -- end with the error of the task file: they neither panic nor wait for the slot without end, if
  -- the fuel is above the drive's bound on polls by two. The byte count's bit field keeps numbers
  -- below 2^22, addresses are mapped, and the heap has room for the buffer of the read.
  pub transfers-TaskFileError :
      (fuel k lba count buffer : ℕ) (ports : List AhciPort) (d : D)
      → bound + 1 < fuel
      → get_elem? ports k ≡ some port
      → 1 ≤ count
      → count ≤ 8192
      → lba < 2 ^ 48
      → ((a : ℕ) → (phys : ℕ) × (translate_addr a ≡ some phys))
      → ((d' : D) → calm.Idle d' → (alloc (512 * count) 1 d').0 ≢ 0)
      → calm.Idle d
      → ((port' : AhciPort) × (d' : D) × (read_sectors p x with_byte_count fuel k lba count ports d
            ≡ ok (inl task_file_error, set ports k port', d')))
        × ((port' : AhciPort) × (d' : D) × (write_sectors p x with_byte_count fuel k lba count
                buffer ports d
              ≡ ok (some task_file_error, set ports k port', d')))
  transfers-TaskFileError fuel k lba count buffer ports d lt at some_sectors few small mapped room
        idle =
      let (d1, opened, i1) = open_slot-Idle p x with_byte_count port calm k ports d at idle in
      let r = alloc (512 * count) 1 d1 in
      let (phys, to) = mapped r.0 in
      let (phys', to') = mapped buffer in
      let (d2, read) =
        run_command-failed fuel 0 0x25 phys lba count r.1 lt some_sectors small
          (drive.heap (512 * count) 1 d1 i1) in
      let (d3, written) =
        run_command-failed fuel 1 0x35 phys' lba count d1 lt some_sectors small i1 in
      (
        (
          read_port p x with_byte_count port byte_count-ok up phys lba count,
          d2,
          read_sectors-done p x with_byte_count port byte_count-ok up fuel k lba count phys ports d
              d1 (false, d2) opened some_sectors few (room d1 i1) to read,
        ),
        (
          write_port p x with_byte_count port byte_count-ok up phys' lba count,
          d3,
          write_sectors-done p x with_byte_count port byte_count-ok up fuel k lba count buffer phys'
              ports d d1 (false, d3) opened some_sectors few to' written,
        ),
      )
