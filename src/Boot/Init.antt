-- ===== src/Boot/Init.antt =====
-- `init` of src/lib.rs as a whole: the components in the order in which the kernel starts them.
use lobster_os_legacy.Prelude.{
  ℕ, Option, none, some, List, [], Bool, true, map, Run, ok, panic, ◌>>=◌, Profile, add_mod,
  u64_mod,
}
use lobster_os_legacy.Gdt
use lobster_os_legacy.Gdt.{GlobalDescriptorTable, user_selectors}
use lobster_os_legacy.Syscall.Registers
use lobster_os_legacy.Interrupts.{Setup, init_idt}
use lobster_os_legacy.Paging.{MapToError, Paging}
use lobster_os_legacy.Memory.{MemoryMap}
use lobster_os_legacy.Memory.Linear
use lobster_os_legacy.Memory.Linear.{LinearFrameAllocator}
use lobster_os_legacy.Memory.Buddy
use lobster_os_legacy.Memory.Buddy.{BuddyAllocator}
use lobster_os_legacy.Allocator.{init_heap}
use lobster_os_legacy.Pci.Config.{from_addr}
use lobster_os_legacy.Pci.Start.{devices_found}
use lobster_os_legacy.Disk.{AhciPort}
use lobster_os_legacy.Disk.Port
use lobster_os_legacy.Disk.Port.{Hardware}
use lobster_os_legacy.Shell.{load_shell, read_from}
use lobster_os_legacy.Elf.Load.{Bytes}
use lobster_os_legacy.Process.{Machine}
use lobster_os_legacy.Process.Spawn.{Entry, Tables}
use lobster_os_legacy.Process.File.{Kernel, frame_of}
use lobster_os_legacy.Scheduler.{Scheduler}
use lobster_os_legacy.Boot.{Arrivals, run_shell}

-- The code of other crates, the contents of memory at start, and the disk. `heap_paging` are the
-- page tables with the linear allocator, `process_paging` those with the buddy allocator.
pub record Platform : Type 1 where
  pub table : GlobalDescriptorTable
  pub initialize_pics : Setup → Setup
  pub heap_paging : Paging
  pub linear : LinearFrameAllocator → heap_paging.F
  pub linear_of : heap_paging.F → LinearFrameAllocator
  -- `OffsetPageTable::new`, by the address of the table and the offset of physical memory.
  pub offset_page_table : ℕ → ℕ → heap_paging.M
  pub heap_tables : heap_paging.M → Tables
  pub translate_addr : heap_paging.M → ℕ → Option ℕ
  pub H : Type 0
  pub heap_init : ℕ → ℕ → H → H
  pub physical : ℕ → ℕ
  pub is_utf8 : List ℕ → Bool
  pub disk : Hardware
  pub with_byte_count : ℕ → Run ℕ
  pub beyond : ℕ → List ℕ
  pub entry : Entry
  pub process_paging : Paging
  pub buddy : BuddyAllocator → process_paging.F
  pub new_mapper : List ℕ → Tables → process_paging.M
  pub level_4 : process_paging.M → List ℕ
  pub tables_of : process_paging.M → Tables

module _ (x : Platform) where
  open x use {
    heap_paging, process_paging, disk, H, table, linear, linear_of, heap_init, physical, is_utf8,
  }

  -- What `init` starts from and changes.
  pub record State : Type 0 where
    pub registers : Gdt.Registers table.T
    pub msrs : ℕ → ℕ
    pub setup : Setup
    pub machine : Machine
    pub heap : H
    pub disk_state : disk.D
    pub scheduler : Scheduler
    pub space : Bytes

-- Where things are and how much fuel the loops have.
pub record Bounds : Type 0 where
  pub handler_addr : ℕ
  pub tss_at : ℕ
  pub box_addr : ℕ
  pub polls : ℕ
  pub directories : ℕ
  pub rounds : ℕ

-- `fs::init(1)`
abbrev pub drive_num : ℕ
drive_num = 1

-- The table whose frame is in `cr3`, as a virtual address.
unfoldable pub active_level_4_table : Profile → (physical_memory_offset cr3 : ℕ) → Run ℕ
active_level_4_table p physical_memory_offset cr3 =
    add_mod p u64_mod physical_memory_offset (frame_of cr3)

module _ (p : Profile) (x : Platform) (b : Bounds) where
  open x use {
    heap_paging, process_paging, disk, H, table, linear, linear_of, heap_init, physical, is_utf8,
  }

  -- `expect` of the result of `init_heap`, and the second allocator.
  abbrev pub heap_mapped :
      MemoryMap
      → Option MapToError × heap_paging.M × heap_paging.F × H
      → Run (heap_paging.M × BuddyAllocator × H)
  heap_mapped memory_map (some error, m, f, h) = panic
  heap_mapped memory_map (none, m, f, h) =
      ok (m, Buddy.init memory_map (Linear.get_used (linear_of f)), h)

  -- `memory::init`
  abbrev pub init_mapper : (physical_memory_offset cr3 : ℕ) → Run heap_paging.M
  init_mapper physical_memory_offset cr3 = do
    level_4_table ← active_level_4_table p physical_memory_offset cr3
    ok (x.offset_page_table level_4_table physical_memory_offset)

  unfoldable pub init_memory :
      MemoryMap → (physical_memory_offset cr3 : ℕ) → H → Run (heap_paging.M × BuddyAllocator × H)
  unfolding active_level_4_table
  init_memory memory_map physical_memory_offset cr3 h = do
    m ← init_mapper physical_memory_offset cr3
    heap_mapped memory_map (init_heap heap_paging heap_init m (linear (Linear.init memory_map)) h)

  -- `acpi::init`, `pci::init` and `disk::init`.
  unfoldable pub find_ports : ℕ → disk.D → Run (List AhciPort × disk.D)
  find_ports physical_memory_offset d = do
    devices ← devices_found p physical physical_memory_offset is_utf8
    Port.init disk b.polls physical_memory_offset (map (from_addr physical) devices) [] d

  -- The descriptor tables, the registers for system calls and the interrupt controllers.
  abbrev pub init_processor : State x → State x
  init_processor s = record s {
    registers = Gdt.init table b.tss_at s.registers;
    msrs = Registers.init b.handler_addr s.msrs;
    setup = x.initialize_pics (init_idt s.setup);
    machine = record s.machine { interrupts = true };
  }

  abbrev pub kernel : State x → heap_paging.M → BuddyAllocator → Kernel process_paging.F
  kernel s m frame_allocator = record {
    machine = s.machine;
    memory = x.heap_tables m;
    allocator = x.buddy frame_allocator;
    space = s.space;
  }

  -- From the file system on.
  abbrev pub init_shell :
      Arrivals
      → State x
      → heap_paging.M
      → BuddyAllocator
      → List AhciPort
      → disk.D
      → Run (Scheduler × Kernel process_paging.F)
  init_shell a s m frame_allocator ports d =
      run_shell p (user_selectors table b.tss_at) b.rounds x.entry process_paging
        (x.translate_addr m) b.box_addr x.new_mapper x.level_4 x.tables_of
        (load_shell is_utf8 p (read_from p disk x.with_byte_count b.polls drive_num) x.beyond
          b.directories (ports, d))
        a s.scheduler (kernel s m frame_allocator)

  -- The scheduler, the kernel and the heap when `init` returns, with the state of the processor.
  unfoldable pub init :
      Arrivals
      → (memory_map : MemoryMap) → (physical_memory_offset : ℕ) → State x
      → Run (State x × H × Scheduler × Kernel process_paging.F)
  unfolding init_memory find_ports
  init a memory_map physical_memory_offset s = do
    let s1 = init_processor s
    memory ← init_memory memory_map physical_memory_offset s1.machine.cr3 s1.heap
    found ← find_ports physical_memory_offset s1.disk_state
    out ← init_shell a s1 memory.0 memory.1 found.0 found.1
    ok (s1, memory.2, out.0, out.1)
