-- ===== src/Disk/Calm.antt =====
-- The port of an idle drive, as the driver finds it before a command.
use Prim.Native.Nat.{bit_and, bit_or}
use lobster_os_legacy.Prelude.{
  ℕ, ◌+◌, ◌-◌, ◌/◌, ◌%◌, ◌^◌, ◌≡◌, refl, some, List, false, ◌==◌, ok, Profile, debug, release,
  u32_mod, arith,
}
use lobster_os_legacy.Disk.{HbaCommandHeader, HbaCommandTable, AhciPort}
use lobster_os_legacy.Disk.Layout.{
  register_addr, offset_of, hba, interrupt_status, task_file_data, sata_active, command_issue,
}
use lobster_os_legacy.Disk.Port.{Hardware}
use lobster_os_legacy.Disk.Slots.{slot_count}
use lobster_os_legacy.Disk.Drive.{Drive}
use lobster_os_legacy.Disk.Transfer.{free_slot}

first_free : (p : Profile) → free_slot p 0 16 0 ≡ ok (some 0)
unfolding free_slot
first_free debug = refl
first_free release = refl

pub no_error : (is : ℕ) → is / 2 ^ 30 % 2 ≡ 0 → (is / 2 ^ 30 % 2 == 1) ≡ false
no_error is e = rw e refl

-- With no slot taken and 16 slots or more, the first one is chosen.
pub idle_slot :
    (p : Profile) (active issued capability : ℕ)
    → active ≡ 0
    → issued ≡ 0
    → capability / 2 ^ 12 % 16 ≡ 1
    → free_slot p (bit_or active issued) (bit_and 0xF0 (capability / 2 ^ 8)) 0 ≡ ok (some 0)
idle_slot p active issued capability a i c =
    let sixteen : bit_and 0xF0 (capability / 2 ^ 8) ≡ 16 = omega (arith, slot_count capability) in
    rw (a, i, sixteen) (first_free p)

-- The port with other headers and tables.
abbrev pub with_memory : AhciPort → List HbaCommandHeader → List HbaCommandTable → AhciPort
with_memory port hs ts = record port { command_list_buffer = hs; command_table_buffers = ts }

-- The port of an idle drive as the driver finds it: the part of `Drive` that is about no command.
pub record Calm (x : Hardware) (hba_mem number : ℕ) : Type 1 where
  pub Idle : x.D → Type 0
  pub clear :
      (d : x.D)
      → Idle d
      → Idle (x.write_volatile (register_addr hba_mem number interrupt_status) (u32_mod - 1) d)
  pub no_active :
      (d : x.D)
      → Idle d
      → let r = x.read_volatile (register_addr hba_mem number sata_active) d in (r.0 ≡ 0) × Idle r.1
  pub no_issued :
      (d : x.D)
      → Idle d
      → let r = x.read_volatile (register_addr hba_mem number command_issue) d in
        (r.0 ≡ 0) × Idle r.1
  pub slots :
      (d : x.D)
      → Idle d
      → let r = x.read_volatile (hba_mem + offset_of hba 0) d in (r.0 / 2 ^ 12 % 16 ≡ 1) × Idle r.1
  pub ready :
      (d : x.D)
      → Idle d
      → let r = x.read_volatile (register_addr hba_mem number task_file_data) d in
        (bit_and 0x88 r.0 ≡ 0) × Idle r.1

abbrev pub calm :
    {x : Hardware} {hba_mem number bound : ℕ} {image : ℕ → ℕ → List ℕ}
    → Drive x hba_mem number bound image
    → ℕ
    → Calm x hba_mem number
calm drive room = record {
  Idle = drive.Idle room;
  clear = drive.clear room;
  no_active = drive.no_active room;
  no_issued = drive.no_issued room;
  slots = drive.slots room;
  ready = drive.ready room;
}
