-- ===== src/Boot/DriveTests.antt =====
-- A machine with no device behind its bridges: the ACPI tables list no bus.
use lobster_os_legacy.Prelude.{
  ℕ, ◌+◌, ◌-◌, ◌≡◌, refl, ap, none, some, List, [], ◌∷◌, true, ◌==◌, ltb, if◌then◌else◌, get_or,
  bytes_at, le_bytes, map, Option, Run, ◌∙◌, ok, panic, ◌>>=◌, expect, debug, arith,
}
use lobster_os_legacy.Gdt.Flat
use lobster_os_legacy.Acpi
use lobster_os_legacy.Acpi.{rsdp_at, sdt_at, verify_checksum, find_rsdp, get_rsdt, from_header}
use lobster_os_legacy.Acpi.Search.{find_rsdp-first}
use lobster_os_legacy.Pci
use lobster_os_legacy.Pci.Config
use lobster_os_legacy.Pci.Config.{McfgEntry}
use lobster_os_legacy.Pci.Start
use lobster_os_legacy.Pci.Start.{find_mcfg, get_mcfg, devices_found}
use lobster_os_legacy.Disk.Port
use lobster_os_legacy.Disk.Sample.{controller}
use lobster_os_legacy.Memory.{MemoryMap, usable_frames, steps}
use lobster_os_legacy.Memory.Linear
use lobster_os_legacy.Memory.Linear.{LinearFrameAllocator}
use lobster_os_legacy.Memory.Buddy
use lobster_os_legacy.Memory.Buddy.{BuddyAllocator}
use lobster_os_legacy.Allocator.{
  heap_start, heap_size, pages, range_inclusive, map_pages, init_heap,
}
use lobster_os_legacy.Paging.Flat.{flat_with, translate}
use lobster_os_legacy.Process.Sample.{entry, machine}
use lobster_os_legacy.Scheduler.{initial}
use lobster_os_legacy.Boot.{Arrivals}
use lobster_os_legacy.Boot.Init.{Platform, State, Bounds, init_memory, find_ports, init}
use lobster_os_legacy.Boot.Drives.{init-one_drive}

-- Of the RSDP, with the RSDT at 0x1000.
abbrev descriptor : List ℕ
descriptor =
    82 ∷ 83 ∷ 68 ∷ 32 ∷ 80 ∷ 84 ∷ 82 ∷ 32 ∷ 209 ∷ 0 ∷ 0 ∷ 0 ∷ 0 ∷ 0 ∷ 0 ∷ 0 ∷ 0 ∷ 0x10 ∷ 0 ∷ 0 ∷ []

-- The RSDT has one table, the MCFG at 0x2000, and that has no entry.
abbrev low : ℕ → ℕ
low a =
    if a == 0x1004
    then 40
    else if a == 0x1025
    then 0x20
    else get_or (77 ∷ 67 ∷ 70 ∷ 71 ∷ 44 ∷ []) (if ltb a 0x2000 then 5 else a - 0x2000) 0

abbrev physical : ℕ → ℕ
physical a = if ltb a 0x80000 then low a else get_or descriptor (a - 0x80000) 0

-- The first frame is not given out; the rest are those of the heap's addresses.
abbrev memory_map : MemoryMap
memory_map =
    record {
      usable = true;
      start_addr = heap_start - 0x1000;
      end_addr = heap_start + heap_size + 0x2000;
    }
    ∷ []

abbrev platform : Platform
platform = record {
  table = Flat.flat;
  initialize_pics = λ s. s;
  heap_paging = flat_with Linear.allocate_frame;
  linear = λ l. l;
  linear_of = λ l. l;
  offset_page_table = λ table offset. heap_start;
  heap_tables = λ m a. [];
  translate_addr = translate;
  H = ℕ × ℕ;
  heap_init = λ start size h. (start, size);
  physical = physical;
  is_utf8 = λ l. true;
  disk = controller 0x1F00 (λ lba count. []);
  with_byte_count = ok;
  beyond = λ n. [];
  entry = entry;
  process_paging = flat_with Buddy.allocate_frame;
  buddy = λ b. b;
  new_mapper = λ l t. 0x800000;
  level_4 = λ m. [];
  tables_of = λ m a. [];
}

abbrev bounds : Bounds
bounds = record {
  handler_addr = 0x200000;
  tss_at = 0x7000;
  box_addr = 0x5000;
  polls = 4;
  directories = 2;
  rounds = 2;
}

abbrev start : State platform
start = record {
  registers = record { gdtr = 0; cs = 8; tr = 0 };
  msrs = λ a. 0;
  setup = record { port_writes = []; idtr = λ v. none };
  machine = machine;
  heap = (0, 0);
  disk_state = (0, 0);
  scheduler = initial;
  space = λ a. 0;
}

found : find_rsdp debug physical 0 ≡ ok (some 0x80000)
unfolding verify_checksum rsdp_at bytes_at
found =
    find_rsdp-first debug physical 0 0 (omega arith) (omega arith) (λ j h. absurd (omega arith))
      refl refl

abbrev with_rsdp : Option ℕ → Run (ℕ × List ℕ)
with_rsdp found =
    expect found >>= λ rsdp. get_rsdt debug physical 0 rsdp >>= λ tables. ok (rsdp, tables)

listed : with_rsdp (some 0x80000) ≡ ok (0x80000, 0x2000 ∷ [])
unfolding get_rsdt from_header rsdp_at sdt_at bytes_at le_bytes
listed = refl

tables_found : Acpi.init debug physical 0 ≡ ok (0x80000, 0x2000 ∷ [])
unfolding Acpi.init
tables_found = ap (λ o. o >>= with_rsdp) found ∙ listed

no_buses : Start.init debug physical 0 (λ l. true) (0x2000 ∷ []) ≡ ok ([], [])
unfolding Start.init get_mcfg find_mcfg Config.from_header Pci.enumerate_bus bytes_at le_bytes
no_buses = refl

abbrev with_tables : ℕ × List ℕ → Run (List ℕ)
with_tables tables = Start.init debug physical 0 (λ l. true) tables.1 >>= λ pci. ok pci.1

no_devices : devices_found debug physical 0 (λ l. true) ≡ ok []
unfolding devices_found
no_devices =
    ap (λ o. o >>= with_tables) tables_found
    ∙ ap (λ (o : Run (List McfgEntry × List ℕ)). o >>= λ pci. ok pci.1) no_buses

no_ports : find_ports debug platform bounds 0 (0, 0) ≡ ok ([], (0, 0))
unfolding find_ports Port.init
no_ports =
    ap
      (λ (o : Run (List ℕ)). o >>= λ devices.
        Port.init platform.disk 4 0 (map (Config.from_addr physical) devices) [] (0, 0))
      no_devices

-- The heap takes 256 frames.
heap_is_mapped :
    init_memory debug platform bounds memory_map 0 0x1000 (0, 0)
    ≡ ok (heap_start + heap_size, Buddy.init memory_map 256, (heap_start, heap_size))
unfolding init_memory init_heap range_inclusive pages map_pages Linear.init Linear.get_used
    Linear.allocate_frame usable_frames steps
heap_is_mapped = refl

abbrev no_interrupt : Arrivals
no_interrupt = record { after_lock = 0; after_push = 0; after_enable = 0 }

init-one_drive_example : init debug platform bounds no_interrupt memory_map 0 start ≡ panic
init-one_drive_example =
    init-one_drive debug platform bounds no_interrupt memory_map 0 start
      (heap_start + heap_size, Buddy.init memory_map 256, (heap_start, heap_size)) [] (0, 0)
      heap_is_mapped no_ports (omega arith)
