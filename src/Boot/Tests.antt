-- ===== src/Boot/Tests.antt =====
-- The start of a process whose ELF file has no segments.
use lobster_os_legacy.Prelude.{
  ◌+◌, ℕ, ◌≡◌, inr, refl, some, List, [], Run, out_of_fuel, debug, arith, Option,
}
use lobster_os_legacy.Paging.Flat.{flat}
use lobster_os_legacy.Elf.{from_slice, elf_header_of}
use lobster_os_legacy.Elf.Load.{map_elf_file_to_process}
use lobster_os_legacy.Process.{Selectors}
use lobster_os_legacy.Process.Sample.{entry, file, before, after, process}
use lobster_os_legacy.Process.Spawn.{new_page_table, map_stack}
use lobster_os_legacy.Process.File.{Kernel, spawn_from_file}
use lobster_os_legacy.Scheduler.{Scheduler, initial}
use lobster_os_legacy.Boot.{Arrivals, launch}
use lobster_os_legacy.Boot.Launch.{Runs, launch-interrupted}

abbrev selectors : Selectors
selectors = record { user_code_selector = 0x30; user_data_selector = 0x28 }

abbrev translate : ℕ → Option ℕ
translate a = some (a + 8)

abbrev launched : Arrivals → Run (Scheduler × Kernel ℕ)
launched a =
    launch debug selectors 2 entry flat translate 0x5000 (λ l t. 0x800000) (λ m. []) (λ m b. []) a
      file initial before

abbrev Shown : List ℕ → Scheduler → Kernel ℕ → Type 0
Shown = Runs debug selectors 2 entry flat translate 0x5000 (λ l t. 0x800000) (λ m. []) (λ m b. [])

abbrev one_tick : Arrivals
one_tick = record { after_lock = 0; after_push = 1; after_enable = 0 }

launch-interrupted_example : launched one_tick ≡ out_of_fuel
unfolding spawn_from_file new_page_table map_stack map_elf_file_to_process from_slice elf_header_of
launch-interrupted_example =
    launch-interrupted debug selectors 2 entry flat translate 0x5000 (λ l t. 0x800000) (λ m. [])
      (λ m b. []) one_tick file before after (inr process) refl refl (omega arith)
