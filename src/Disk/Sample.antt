-- ===== src/Disk/Sample.antt =====
-- A controller with one drive that holds an image; a read takes two polls. The state is the polls to
-- go and the sector of the last command.
use lobster_os_legacy.Prelude.{
  ℕ, zero, suc, ◌-◌, ◌*◌, ◌%◌, ◌≡◌, refl, ap, ◌∙◌, ◌/◌, Option, none, some, List, ◌==◌,
  if◌then◌else◌, replicate, get_elem?, arith,
}
use lobster_os_legacy.Disk.{AhciPort, HbaCommandHeader, HbaCommandTable}
use lobster_os_legacy.Disk.Layout.{register_addr}
use lobster_os_legacy.Disk.Port.{Hardware, zero_table}
use lobster_os_legacy.Disk.Drive.{fis_lba, IsSetUp, Drive}

abbrev pub issued : ℕ → ℕ
issued zero = 0
issued (suc n) = 1

-- The registers are those of port 0 of a controller at address 0.
abbrev read : ℕ → ℕ → ℕ × ℕ → ℕ × (ℕ × ℕ)
read capability a d =
    if a == 0x138
    then (issued d.0, d)
    else if a == 0x110
    then (0, (d.0 - 1, d.1))
    else if a == 0
    then (capability, d)
    else (0, d)

abbrev started : Option HbaCommandTable → ℕ × ℕ → ℕ × ℕ
started none d = d
started (some t) d = (2, fis_lba t.command_fis)

abbrev pub zero_header : HbaCommandHeader
zero_header = record {
  command_fis_length = 0;
  atapi = 0;
  write = 0;
  prefetchable = 0;
  reset = 0;
  bist = 0;
  clear = 0;
  reserved = 0;
  pmp = 0;
  prdt_length = 8;
  prd_byte_count = 0;
  command_table_descriptor_base = 0;
}

abbrev pub controller : ℕ → (ℕ → ℕ → List ℕ) → Hardware
controller capability content = record {
  D = ℕ × ℕ;
  read_volatile = read capability;
  write_volatile = λ a v d. d;
  issue = λ port v d. started (get_elem? port.command_table_buffers 0) d;
  alloc = λ size align d. (0x5000, d);
  translate_addr = λ a. some a;
  command_list_at = λ a d. replicate 32 zero_header;
  load = λ a n d. content d.1 (n / 512);
}

abbrev pub port : AhciPort
port = record {
  hba_mem = 0;
  port = 0;
  command_list_buffer = replicate 32 zero_header;
  fis_buffer = 0;
  command_table_buffers = replicate 32 zero_table;
}

abbrev pub filled : ℕ → ℕ → List ℕ
filled lba count = replicate (512 * count) (lba % 256)

-- 32 slots.
unfoldable pub drive : (image : ℕ → ℕ → List ℕ) → Drive (controller 0x1F00 image) 0 0 2 image
unfolding register_addr
drive image = record {
  Idle = λ room d. d.0 ≡ 0;
  Busy = λ room n buffer lba count d. (d.0 ≡ n) × (d.1 ≡ lba);
  clear = λ room d i. i;
  heap = λ count room d some_sectors i. (((λ e. absurd (omega arith)), 0x5000, λ j lt. refl), i);
  no_active = λ room d i. (refl, i);
  no_issued = λ room d i. ((rw i refl), i);
  slots = λ room d i. (refl, i);
  ready = λ room d i. (refl, i);
  start = λ room d port' phys buffer lba count i e f is to.
      (2, omega arith, ((rw is.table_at refl), (rw is.table_at is.sectors)));
  working = λ room d n buffer lba count b.
      let busy : issued d.0 ≡ 1 = rw b.0 refl in
      ((rw busy (λ z. absurd (omega arith))), refl, (omega (arith, b.0), b.1));
  finished = λ room d buffer lba count b.
      let whole : 512 * count / 512 ≡ count = omega arith in
      (
        (rw b.0 refl),
        refl,
        omega (arith, b.0),
        ap (λ l. image l (512 * count / 512)) b.1 ∙ ap (image lba) whole,
      );
}

pub set_up : IsSetUp port
set_up = record {
  header = zero_header;
  header_at = refl;
  entries = omega arith;
  table = zero_table;
  table_at = refl;
  entry = record { data_base = 0; byte_count = 0; interrupt = 0 };
  entry_at = refl;
}
