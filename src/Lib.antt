-- ===== src/Lib.antt =====
-- A verification library for the lobsterOS kernel (Rust).
--
-- The kernel boots, takes the memory map of the boot loader, hands out frames, maps a heap, finds the
-- PCI devices through the ACPI tables, reads a FAT file system from a disk, loads ELF files into new
-- processes and shares the processor among them at each timer interrupt. Each part has a module:
--
-- - Process: the context switch of src/process.rs (`activate`, `deactivate`, `switch_to_usermode`) and
--   `set_usermode_segments` of src/gdt.rs; Process.Spawn and Process.File: `new_page_table`,
--   `map_stack` and `spawn_from_file`, which puts them together with the loader of Elf. The inline
--   assembly is a change of a `Machine`: registers, page table, interrupt flag, where control is, and
--   whether the scheduler is locked.
-- - Scheduler: src/threading/scheduler.rs and the timer interrupt handler of src/interrupts.rs. The
--   queue is a list, the lock a flag of the machine. The loop of `get_next_task` runs on fuel; twice
--   the number of tasks is enough whenever a task is ready.
-- - Memory: the two frame allocators of src/memory.rs and how the kernel passes from one to the other.
-- - Paging: what the kernel relies on of the x86_64 crate's page tables, as an interface; Paging.Flat
--   fills it in the tests.
-- - Allocator: `init_heap` of src/allocator.rs; Allocator.FixedBlock: src/allocator/fixed_block.rs. The
--   fallback heap of the crate linked_list_allocator is a parameter.
-- - VgaText: src/display/vga_text.rs, the screen as a function of row and column.
-- - Acpi, Pci: src/acpi.rs and src/pci.rs over a memory of bytes, in which a reference is an address;
--   Pci.Config has the structures that are read, Pci.Start the start-up of both.
-- - FileSystem: src/fs.rs. `read_sectors` of src/disk.rs is a parameter that passes on the state of the
--   disk and its driver from each read to the next; FileSystem.Directory has the
--   walk over a directory, on fuel that the height of the tree bounds.
-- - Disk: src/disk.rs. The layouts of the shared structures are lists of field sizes; the controller
--   is a parameter, a state that reads and writes of registers change, and Disk.Drive says what one
--   with a drive behind it keeps to, Disk.Writable one that can be written, Disk.Failing one
--   whose transfers fail, and Disk.Startable a port that is to be set up. A transfer is described
--   by one physical address, so these laws are about buffers that are contiguous in physical
--   memory, of which the heap has a limited number of sectors. The loops that wait for the
--   controller run on fuel; the bound on polls says how much is enough.
-- - Elf: the header checks of src/elf.rs and the mapping of a segment's pages; Elf.Load: the copy of
--   the data and the loop over the segments.
-- - Syscall: src/syscall.rs, src/syscall/display.rs and src/syscall/process.rs. `syscall_wrapper` is
--   a list of instructions; what the code that it calls keeps to is an interface, the C calling
--   convention with the handlers' source.
-- - Executor: src/task.rs, src/task/executor.rs and src/task/keyboard.rs with the keyboard handler of
--   src/interrupts.rs. A future is a function; `run_ready_tasks` runs on fuel, for which the wakes that
--   the tasks can still make are a bound. Interrupts come as lists between the steps of `poll_next`, of
--   a round of `run` and of `sleep_if_idle`; while they are disabled they wait. The decoder of keys is a parameter.
-- - Shell: `init` of src/fs.rs and `get_bash` of src/lib.rs, which find the shell in the tree of
--   FileSystem and read it through the driver of Disk.
-- - Gdt, Interrupts: src/gdt.rs and the table and the exception handlers of src/interrupts.rs. The
--   table of the x86_64 crate is an interface; the vectors are those of the processor, and a message
--   is a value.
-- - Boot: `init` of src/lib.rs. Boot.Init has the components in the order in which they start, over a
--   `Platform` of the code of other crates; Boot has the end of it, with the timer interrupts that come
--   while the scheduler is locked. Nothing loops there but what the components loop on, with their fuel.
-- - Threads: src/threading/thread.rs.
-- - Prelude: shared types and lemmas. `Run` is a value, a panic, or an end of the fuel; machine
--   integers are numbers below their modulus, and arithmetic on them depends on the `Profile`: debug
--   panics on overflow, release wraps.
--
-- Not modelled: `kernel_main` of src/main.rs, which prints, calls `init` and halts; the panic handlers,
-- the test runner and the serial port, which are port I/O; the user programs of src/userspace.rs,
-- which are assembly; and the code of other crates, such as the decoding of keys.
pub mod Prelude
pub mod Process
pub mod Scheduler
pub mod Memory
pub mod Paging
pub mod Allocator
pub mod VgaText
pub mod Acpi
pub mod Pci
pub mod FileSystem
pub mod Disk
pub mod Elf
pub mod Syscall
pub mod Executor
pub mod Shell
pub mod Gdt
pub mod Interrupts
pub mod Boot
pub mod Threads
