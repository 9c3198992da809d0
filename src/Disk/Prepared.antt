-- ===== src/Disk/Prepared.antt =====
-- A port that `init_device` of src/disk.rs sets up: its engines are stopped first, and started with the
-- buffers of the port.
use lobster_os_legacy.Prelude.{ℕ, ◌<◌, ◌≡◌, some, List, get_elem?}
use lobster_os_legacy.Disk.{HbaCommandHeader, HbaCommandTable}
use lobster_os_legacy.Disk.Port.{Hardware, zero_table}
use lobster_os_legacy.Disk.Startable.{Startable}

module _ (x : Hardware) (hba_ptr i bound : ℕ) (laws : Startable x hba_ptr i bound) where
  open x use {D, read_volatile, write_volatile, alloc, translate_addr, command_list_at}
  open laws use {Found, Stopping, Stopped, Started}

  -- The engines are stopped, whatever the base registers hold.
  abbrev AtRest : D → Type 0
  AtRest d = (l : ℕ) × (lu : ℕ) × (f : ℕ) × (fu : ℕ) × Stopped l lu f fu d

  -- A header that points to a table of 8 entries, and its table, all zero.
  abbrev pub AllReady : List HbaCommandHeader → List HbaCommandTable → ℕ → Type 0
  AllReady headers tables n =
      (k : ℕ)
      → k < n
      → (header : HbaCommandHeader) × (get_elem? headers k ≡ some header)
        × (header.prdt_length ≡ 8)
        × (get_elem? tables k ≡ some zero_table)
