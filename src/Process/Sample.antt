-- ===== src/Process/Sample.antt =====
-- A memory of three page tables, and a process whose ELF file has no segments.
use lobster_os_legacy.Prelude.{
  ℕ, ◌+◌, ◌-◌, ◌%◌, none, true, false, List, [], ◌∷◌, ◌++◌, replicate, ◌==◌, if◌then◌else◌, arith,
}
use lobster_os_legacy.Process.{Process, Machine, kernel}
use lobster_os_legacy.Process.Spawn.{Entry, Tables}
use lobster_os_legacy.Process.File.{Kernel}

abbrev pub entry : Entry
entry = record {
  set_addr = λ a flags. a + flags % 0x1000;
  addr = λ e. e - e % 0x1000;
  addr-set_addr = λ a flags h. omega arith;
}

-- The kernel's tables of the levels 4 and 3; the other frames hold ones.
abbrev pub tables : Tables
tables a =
    if a == 0x1000
    then 0x2003 ∷ replicate 511 7
    else if a == 0x2000
    then 0x3003 ∷ replicate 511 9
    else replicate 512 1

abbrev pub file : List ℕ
file = (0x7F ∷ 69 ∷ 76 ∷ 70 ∷ 2 ∷ 1 ∷ []) ++ replicate 12 0 ++ (0x3E ∷ []) ++ replicate 45 0

abbrev pub machine : Machine
machine = record {
  cr3 = 0x1000;
  interrupts = true;
  registers = record { rbx = 0; rbp = 0; r12 = 0; r13 = 0; r14 = 0; r15 = 0; rsp = 0x9000 };
  control = kernel;
  scheduler_locked = false;
}

abbrev pub before : Kernel ℕ
before = record { machine = machine; memory = tables; allocator = 0x7FE000; space = λ a. 0 }

abbrev pub after : Kernel ℕ
after = record { machine = machine; memory = λ a. []; allocator = 0x811000; space = λ a. 0 }

abbrev pub process : Process
process = record {
  page_table = [];
  process_state = none;
  page_table_addr = 0x5008;
  entry_offset = 0;
  regions = [];
}
