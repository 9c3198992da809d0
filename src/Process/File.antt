-- ===== src/Process/File.antt =====
-- `Process::spawn_from_file` of src/process.rs, with the parts of the kernel that it puts together:
-- the page tables of the new process, its stack, and the loader of ELF files.
use lobster_os_legacy.Prelude.{
  ℕ, ◌-◌, ◌%◌, Option, none, true, false, List, ◌⊎◌, inr, Run, ok, ◌>>=◌, expect, Profile,
}
use lobster_os_legacy.Paging.{Paging}
use lobster_os_legacy.Process.{Process, Machine}
use lobster_os_legacy.Process.Spawn.{Entry, Tables, new_page_table, map_stack}
use lobster_os_legacy.Elf.{Mapping}
use lobster_os_legacy.Elf.Load.{Bytes, map_elf_file_to_process}

pub data ProcessSpawnError : Type 0 where
  map_fail : ProcessSpawnError

-- `memory` are the tables as the physical mapping shows them, `space` the bytes of the new process.
pub record Kernel (F : Type 0) : Type 0 where
  pub machine : Machine
  pub memory : Tables
  pub allocator : F
  pub space : Bytes

-- `PhysFrame::containing_address`
abbrev pub frame_of : ℕ → ℕ
frame_of a = a - a % 0x1000

-- `translate_addr` is that of the kernel's mapper, `box_addr` where the heap keeps the new table.
-- `new_mapper` makes the state of a mapper of the new table over the tables of the memory; `level_4`
-- and `tables_of` read the table and the memory's tables back.
module _ (p : Profile) (e : Entry) (x : Paging) (translate_addr : ℕ → Option ℕ) (box_addr : ℕ)
    (new_mapper : List ℕ → Tables → x.M) (level_4 : x.M → List ℕ) (tables_of : x.M → Tables) where
  open x use {M, F, allocate_frame}

  -- The other context is in force while the file is mapped.
  abbrev pub enter_context : ℕ → Machine → Machine
  enter_context page_table_addr m = record m { interrupts = false; cr3 = frame_of page_table_addr }

  abbrev pub leave_context : ℕ → Machine → Machine
  leave_context current_table_frame m = record m { cr3 = current_table_frame; interrupts = true }

  abbrev pub spawned : ℕ → Mapping x → ℕ → Process
  spawned page_table_addr s entry_point = record {
    page_table = level_4 s.tables;
    process_state = none;
    page_table_addr = page_table_addr;
    entry_offset = entry_point;
    regions = s.frames;
  }

  unfoldable pub spawn_from_file :
      List ℕ → Kernel F → Run ((ProcessSpawnError ⊎ Process) × Kernel F)
  spawn_from_file file k = do
    let current_page_table = k.memory k.machine.cr3
    let made = new_page_table e allocate_frame current_page_table k.allocator k.memory
    page_table ← expect made.0
    page_table_addr ← expect (translate_addr box_addr)
    stack ← map_stack x (new_mapper page_table made.2) made.1
    let current_table_frame = k.machine.cr3
    let m1 = enter_context page_table_addr k.machine
    elf ← map_elf_file_to_process p x file stack.0 stack.1 k.space
    let m2 = leave_context current_table_frame m1
    ok (
      inr (spawned page_table_addr elf.0 elf.2),
      record {
        machine = m2;
        memory = tables_of elf.0.tables;
        allocator = elf.0.allocator;
        space = elf.1;
      },
    )
