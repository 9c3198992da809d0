-- ===== src/Disk/WritableSample.antt =====
-- A controller with one drive that can be written; a command takes two polls. The state is the polls to
-- go, the sectors, and the buffer of the last read with its bytes. Other memory holds its address.
use mathlib.Core.Path.{sym}
use lobster_os_legacy.Prelude.{
  ℕ, ◌-◌, ◌*◌, ◌%◌, ◌≡◌, refl, ap, ◌∙◌, Option, none, some, List, ◌==◌, ==_iff, if◌then◌else◌,
  replicate, get_elem?, arith,
}
use lobster_os_legacy.Disk.{AhciPort, HbaCommandHeader, HbaCommandTable, HbaPrdtEntry}
use lobster_os_legacy.Disk.Layout.{register_addr}
use lobster_os_legacy.Disk.Port.{Hardware}
use lobster_os_legacy.Disk.Drive.{IsContiguous, contiguous_start, fis_lba, IsCommand, Drive}
use lobster_os_legacy.Disk.Sample.{issued, zero_header}
use lobster_os_legacy.Disk.Writable.{Image, read_image, write_image, WritableDrive}

pub record Machine : Type 0 where
  pub polls : ℕ
  pub sectors : Image
  pub target : ℕ
  pub received : List ℕ

abbrev memory : ℕ → ℕ → Machine → List ℕ
memory a n d = if a == d.target then d.received else replicate n (a % 256)

-- The registers are those of port 0 of a controller at address 0, with 32 slots.
abbrev value : ℕ → ℕ → ℕ
value a polls = if a == 0x138 then issued polls else if a == 0 then 0x1F00 else 0

abbrev next : ℕ → ℕ → ℕ
next a polls = if a == 0x110 then polls - 1 else polls

abbrev executed : ℕ → ℕ → ℕ → ℕ → Machine → Machine
executed direction lba count phys d =
    if direction == 1
    then record d {
      polls = 2;
      sectors = write_image d.sectors lba count (memory phys (512 * count) d);
    }
    else record d { polls = 2; target = phys; received = read_image d.sectors lba count }

abbrev entered : ℕ → HbaCommandTable → Machine → Option HbaPrdtEntry → Machine
entered direction t d none = d
entered direction t d (some e) =
    executed direction (fis_lba t.command_fis) t.command_fis.count e.data_base d

abbrev fetched : Option HbaCommandHeader → Option HbaCommandTable → Machine → Machine
fetched (some h) (some t) d = entered h.write t d (get_elem? t.prdt_entries 0)
fetched none t d = d
fetched (some h) none d = d

abbrev pub machine : Hardware
machine = record {
  D = Machine;
  read_volatile = λ a d. (value a d.polls, record d { polls = next a d.polls });
  write_volatile = λ a v d. d;
  issue = λ port v d.
      fetched (get_elem? port.command_list_buffer 0) (get_elem? port.command_table_buffers 0) d;
  alloc = λ size align d. (0x5000, d);
  translate_addr = λ a. some a;
  command_list_at = λ a d. replicate 32 zero_header;
  load = memory;
}

-- What the controller does with a command in slot 0.
pub issue_lem :
    (direction command phys lba count : ℕ) (port : AhciPort) (d : Machine)
    → IsCommand direction command port phys lba count
    → machine.issue port 1 d ≡ executed direction lba count phys d
issue_lem direction command phys lba count port d is =
    ap (λ h. fetched h (get_elem? port.command_table_buffers 0) d) is.header_at
    ∙ ap (λ t. fetched (some is.header) t d) is.table_at
    ∙ ap (entered is.header.write is.table d) is.entry_at
    ∙ ap
        (λ w.
          executed w (fis_lba is.table.command_fis) is.table.command_fis.count is.entry.data_base d)
        is.written
    ∙ ap (λ l. executed direction l is.table.command_fis.count is.entry.data_base d) is.sectors
    ∙ ap (λ n. executed direction lba n is.entry.data_base d) is.sector_count
    ∙ ap (λ a. executed direction lba count a d) is.base

abbrev or_zero : Option ℕ → ℕ
or_zero none = 0
or_zero (some v) = v

pub first_byte :
    {direction command lba : ℕ} {port : AhciPort} (buffer count phys : ℕ)
    → IsCommand direction command port phys lba count
    → IsContiguous machine buffer (512 * count) phys
    → machine.translate_addr buffer ≡ some phys
first_byte buffer count phys is c =
    contiguous_start machine buffer (512 * count) phys (omega (arith, is.bytes)) c

unfoldable drive : (image : Image) → Drive machine 0 0 2 (read_image image)
unfolding register_addr
drive image = record {
  Idle = λ room d. (d.polls ≡ 0) × (d.sectors ≡ image);
  Busy = λ room n buffer lba count d.
      (d.polls ≡ n)
      × (d.sectors ≡ image)
      × (d.target ≡ buffer)
      × (d.received ≡ read_image image lba count);
  clear = λ room d i. i;
  heap = λ count room d some_sectors i. (((λ e. absurd (omega arith)), 0x5000, λ j lt. refl), i);
  no_active = λ room d i. (refl, i);
  no_issued = λ room d i. ((rw i.0 refl), i);
  slots = λ room d i. (refl, i);
  ready = λ room d i. (refl, i);
  start = λ room d port' phys buffer lba count i e f is c.
      let to = first_byte buffer count phys is c in
      let ran = issue_lem 0 0x25 phys lba count port' d is in
      (
        2,
        omega arith,
        (
          ap (λ m. m.polls) ran,
          ap (λ m. m.sectors) ran ∙ i.1,
          ap (λ m. m.target) ran ∙ sym (ap or_zero to),
          ap (λ m. m.received) ran ∙ ap (λ im. read_image im lba count) i.1,
        ),
      );
  working = λ room d n buffer lba count b.
      let busy : issued d.polls ≡ 1 = rw b.0 refl in
      ((rw busy (λ z. absurd (omega arith))), refl, (omega (arith, b.0), b.1, b.2, b.3));
  finished = λ room d buffer lba count b.
      let (polled, held, at, bytes) = b in
      (
        (rw polled refl),
        refl,
        (omega (arith, polled), held),
        ap (λ t. if t then d.received else replicate (512 * count) (buffer % 256))
              ((==_iff buffer d.target).1 (sym at))
            ∙ bytes,
      );
}

unfoldable pub writable : WritableDrive machine 0 0 2
unfolding drive register_addr
writable = record {
  drive = drive;
  Writing = λ room n image d. (d.polls ≡ n) × (d.sectors ≡ image);
  read_keeps = λ image room d a buffer n i. refl;
  clear_keeps = λ image room d v buffer n i. refl;
  start_write = λ image room d port phys buffer lba count i e f is c.
      let to = first_byte buffer count phys is c in
      let ran = issue_lem 1 0x35 phys lba count port d is in
      (
        2,
        omega arith,
        (
          ap (λ m. m.polls) ran,
          ap (λ m. m.sectors) ran
              ∙ ap (λ im. write_image im lba count (memory phys (512 * count) d)) i.1
              ∙ ap (λ a. write_image image lba count (memory a (512 * count) d))
                  (sym (ap or_zero to)),
        ),
      );
  working_write = λ image room d n b.
      let busy : issued d.polls ≡ 1 = rw b.0 refl in
      ((rw busy (λ z. absurd (omega arith))), refl, (omega (arith, b.0), b.1));
  finished_write = λ image room d b. ((rw b.0 refl), refl, (omega (arith, b.0), b.1));
}
