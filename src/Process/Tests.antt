-- ===== src/Process/Tests.antt =====
-- The making of a process at small inputs.
use lobster_os_legacy.Prelude.{
  ℕ, ◌+◌, ◌≤◌, ◌<◌, ◌≡◌, ◌⊎◌, inr, refl, Option, some, List, [], ok, panic, debug, arith,
}
use lobster_os_legacy.Paging.Flat.{flat, translate}
use lobster_os_legacy.Allocator.{page_of}
use lobster_os_legacy.Elf.{from_slice, elf_header_of}
use lobster_os_legacy.Elf.Load.{map_elf_file_to_process}
use lobster_os_legacy.Process.Sample.{entry, tables, file, machine, before, after, process}
use lobster_os_legacy.Process.Spawn.{Tables, new_page_table, map_stack}
use lobster_os_legacy.Process.Shared.{Shares, new_page_table-Shares}
use lobster_os_legacy.Process.Stack.{Stuck, map_stack-maps}
use lobster_os_legacy.Process.File.{spawn_from_file}
use lobster_os_legacy.Process.Spawned.{Started, spawn_from_file-activate}

abbrev frames : ℕ → Option ℕ × ℕ
frames f = (some f, f + 0x1000)

new_page_table-Shares_example :
    (page_table : List ℕ) × (t' : Tables) × (new_page_table entry frames
        (tables 0x1000)
        0x7FE000
        tables
      ≡ (some page_table, 0x800000, t'))
    × Shares entry (tables 0x1000) page_table 0x7FE000 0x7FF000 tables t'
new_page_table-Shares_example =
    new_page_table-Shares entry frames (tables 0x1000) 0x7FE000 0x7FF000 0x800000 tables 0x7FE000
      0x7FF000 (λ e. absurd (omega arith)) refl refl (λ e. absurd (omega arith)) (omega arith) refl
      refl

map_stack-maps_example :
    ((map_stack flat 0x800000 0x800000 ≡ panic) × Stuck flat 17 0x800000 0x800000 0x800000)
    ⊎ ((s : ℕ × ℕ) × (map_stack flat 0x800000 0x800000 ≡ ok s)
        × ((addr : ℕ)
            → 0x800000 ≤ addr
            → addr < 0x810000 + 0x1000
            → (frame : ℕ) × (translate s.0 (page_of addr) ≡ some frame))
        × ((other : ℕ) → other < 0x800000 → translate s.0 other ≡ translate 0x800000 other))
map_stack-maps_example = map_stack-maps flat 0x800000 0x800000

-- It does return here.
returns : map_stack flat 0x800000 0x800000 ≡ ok (0x811000, 0x811000)
unfolding map_stack
returns = refl

spawn_from_file-activate_example :
    Started debug entry flat
      (λ a. some (a + 8))
      0x5000
      (λ l t. 0x800000)
      (λ m. [])
      (λ m a. [])
      file
      machine
      (inr process)
      after
unfolding spawn_from_file new_page_table map_stack map_elf_file_to_process from_slice elf_header_of
spawn_from_file-activate_example =
    spawn_from_file-activate debug entry flat (λ a. some (a + 8)) 0x5000 (λ l t. 0x800000) (λ m. [])
      (λ m a. []) file before after (inr process) refl
