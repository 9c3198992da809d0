-- ===== src/Pci/Tests.antt =====
-- One bus of a machine whose fourth device is there, with one function.
use lobster_os_legacy.Prelude.{
  ℕ, ◌+◌, ◌/◌, ◌%◌, ◌≡◌, ◌<◌, ◌↔◌, refl, List, [], ◌∷◌, ◌==◌, if◌then◌else◌, ok, debug, arith, In,
  Option, some,
}
use lobster_os_legacy.Pci.{DeviceType, device, from, enumerate_bus}
use lobster_os_legacy.Pci.Config.{McfgEntry, from_addr}
use lobster_os_legacy.Pci.Found.{address}
use lobster_os_legacy.Pci.Listed.{IsOn, enumerate_bus-IsOn}

abbrev memory : ℕ → ℕ
memory a = if a % 0x1000 == 14 then 0 else if a / 0x1000 == 0xE0018 then 0x86 else 0xFF

abbrev host_bridge : McfgEntry
host_bridge = record {
  config_space = 0xE0000000;
  segment_group = 0;
  start_bus = 0;
  end_bus = 1;
  reserved = 0;
}

known :
    (bus dev : ℕ)
    → bus < 256
    → dev < 32
    → (t : Option DeviceType) × (from memory (address 0 host_bridge bus dev 0) ≡ ok t)
unfolding from from_addr
known bus dev b d =
    let at : (address 0 host_bridge bus dev 0 + 14) % 0x1000 ≡ 14 = omega arith in
    (some (device (address 0 host_bridge bus dev 0)), rw at refl)

enumerate_bus-IsOn_example :
    (devices : List ℕ) × (enumerate_bus debug memory 0 (host_bridge ∷ []) ≡ ok devices)
    × ((a : ℕ)
        → In a devices
          ↔ (bridge : McfgEntry) × In bridge (host_bridge ∷ []) × IsOn memory 0 bridge a)
enumerate_bus-IsOn_example =
    enumerate_bus-IsOn debug memory 0 (host_bridge ∷ [])
      ((omega arith, omega arith, omega arith, known), tt)
