-- ===== src/Disk/Tests.antt =====
-- The driver with the sample controller.
use lobster_os_legacy.Prelude.{List, replicate, ℕ, ◌≡◌, refl, [], ◌∷◌, ok, panic, debug, release}
use lobster_os_legacy.Disk.{AhciPort}
use lobster_os_legacy.Disk.Slots.{read_sectors-no_slot}
use lobster_os_legacy.Disk.Transfer.{read_sectors}
use lobster_os_legacy.Disk.Writable.{Image}
use lobster_os_legacy.Disk.Writes.{Reads}
use lobster_os_legacy.Disk.WritableSample.{Machine, machine, writable}
use lobster_os_legacy.Disk.Sample.{controller, port, filled, set_up}

-- 16 slots.
read_sectors-no_slot_example :
    read_sectors release (controller 0x0F00 filled) ok 4 0 300 2 (port ∷ []) (0, 7) ≡ panic
read_sectors-no_slot_example =
    read_sectors-no_slot release (controller 0x0F00 filled) ok 4 0 300 2 (port ∷ []) port (0, 7)
      refl (λ d. refl)

abbrev zeros : Image
zeros sector = replicate 512 0

abbrev fresh : Machine
fresh = record { polls = 0; sectors = zeros; target = 0; received = [] }

abbrev Later : ℕ → ℕ → List AhciPort → Machine → List ℕ → Type 0
Later = Reads debug machine ok port 2 writable (λ n h. refl) set_up 4 0
