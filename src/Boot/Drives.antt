-- ===== src/Boot/Drives.antt =====
-- What `init` of src/lib.rs does where the disk that it is to start from is not there.
use lobster_os_legacy.Prelude.{
  ℕ, ◌≤◌, ◌≡◌, ◌⊎◌, refl, ap, ◌∙◌, none, List, [], ◌∷◌, Bool, length, get_elem?, Run, ok, panic,
  ◌>>=◌, expect, Profile, arith,
}
use lobster_os_legacy.Memory.{MemoryMap}
use lobster_os_legacy.Memory.Buddy.{BuddyAllocator}
use lobster_os_legacy.Disk.{AhciPort, DiskAccessError}
use lobster_os_legacy.Disk.Port.{Hardware}
use lobster_os_legacy.Disk.Transfer.{open_slot, read_sectors}
use lobster_os_legacy.Shell.{
  load_shell, init_file_system, read_from, contents, with_sector_0, get_bash,
}
use lobster_os_legacy.Gdt.{user_selectors}
use lobster_os_legacy.Process.File.{Kernel}
use lobster_os_legacy.Scheduler.{Scheduler}
use lobster_os_legacy.Boot.{Arrivals, launch, run_shell}
use lobster_os_legacy.Boot.Init.{
  Platform, State, Bounds, drive_num, init_memory, find_ports, init_processor, kernel, init_shell,
  init,
}

only_one : (ports : List AhciPort) → length ports ≤ 1 → get_elem? ports 1 ≡ none
only_one [] h = refl
only_one (port ∷ []) h = refl
only_one (port ∷ other ∷ ports) h = absurd (omega arith)

read_sectors-missing :
    (p : Profile) (x : Hardware) (with_byte_count : ℕ → Run ℕ) (fuel k lba count : ℕ)
    (ports : List AhciPort) (d : x.D)
    → get_elem? ports k ≡ none
    → read_sectors p x with_byte_count fuel k lba count ports d ≡ panic
unfolding read_sectors open_slot
read_sectors-missing p x with_byte_count fuel k lba count ports d missing =
    rw (missing, expect, ◌>>=◌) refl

load_shell-panic :
    {S : Type 0} (is_utf8 : List ℕ → Bool) (p : Profile)
    (read : ℕ → ℕ → S → Run ((DiskAccessError ⊎ List ℕ) × S)) (beyond : ℕ → List ℕ) (n : ℕ) (s : S)
    → read 0 1 s ≡ panic
    → load_shell is_utf8 p read beyond n s ≡ panic
unfolding load_shell init_file_system
load_shell-panic is_utf8 p read beyond n s h =
    ap
      (λ o. (o >>= λ r. contents r.0 >>= λ b. with_sector_0 is_utf8 p read beyond n b r.1) >>= λ fs.
        get_bash is_utf8 p read beyond fs.0.0 fs.0.1 fs.1)
      h

-- The kernel starts from the second drive. If the heap is mapped and the drivers have been started,
-- and they found at most one drive with a device, then `init` panics, whatever is on that drive and
-- whatever interrupts come.
pub init-one_drive :
    (p : Profile) (x : Platform) (b : Bounds) (a : Arrivals) (memory_map : MemoryMap)
    (physical_memory_offset : ℕ) (s : State x) (memory : x.heap_paging.M × BuddyAllocator × x.H)
    (ports : List AhciPort) (d : x.disk.D)
    → init_memory p x b memory_map physical_memory_offset s.machine.cr3 s.heap ≡ ok memory
    → find_ports p x b physical_memory_offset s.disk_state ≡ ok (ports, d)
    → length ports ≤ 1
    → init p x b a memory_map physical_memory_offset s ≡ panic
unfolding init run_shell
init-one_drive p x b a memory_map physical_memory_offset s memory ports d mapped found few =
    let s1 = init_processor p x b s in
    let read = read_from p x.disk x.with_byte_count b.polls drive_num in
    let missing : read 0 1 (ports, d) ≡ panic =
      ap (λ r. r >>= λ o. ok (o.0, (o.1, o.2)))
        (read_sectors-missing p x.disk x.with_byte_count b.polls 1 0 1 ports d
          (only_one ports few)) in
    ap
      (λ o. o >>= λ m. find_ports p x b physical_memory_offset s.disk_state >>= λ f.
        init_shell p x b a s1 m.0 m.1 f.0 f.1 >>= λ out. ok (s1, m.2, out.0, out.1))
      mapped
    ∙ ap
        (λ o. o >>= λ f. init_shell p x b a s1 memory.0 memory.1 f.0 f.1 >>= λ out.
          ok (s1, memory.2, out.0, out.1))
        found
    ∙ ap (λ o. (o >>= λ loaded. launch_on s1 loaded.0) >>= λ out. ok (s1, memory.2, out.0, out.1))
        (load_shell-panic x.is_utf8 p read x.beyond b.directories (ports, d) missing)
  where
    launch_on : State x → List ℕ → Run (Scheduler × Kernel x.process_paging.F)
    launch_on s1 bytes =
        launch p (user_selectors x.table b.tss_at) b.rounds x.entry x.process_paging
          (x.translate_addr memory.0) b.box_addr x.new_mapper x.level_4 x.tables_of a bytes
          s1.scheduler (kernel p x b s1 memory.0 memory.1)
