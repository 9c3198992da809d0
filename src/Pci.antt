-- ===== src/Pci.antt =====
-- PCI enumeration, src/pci.rs. A `&'static` reference into the configuration space is its address,
-- and `mem` gives the byte at an address; `phys_offset` is the offset at which
-- physical memory is mapped. `p` tells whether the build checks for overflow.
pub mod Config
pub mod Start
mod Found
mod Listed
mod Tests
use Prim.Native.Nat.{bit_or}
use lobster_os_legacy.Prelude.{
  ℕ, zero, suc, ◌+◌, ◌*◌, ◌-◌, ◌/◌, ◌%◌, ◌^◌, Option, none, some, List, [], ◌∷◌, ◌++◌, Bool, true,
  false, ◌==◌, not, if◌then◌else◌, Run, ok, panic, ◌>>=◌, Profile, add_mod, u64_mod,
}
use lobster_os_legacy.Pci.Config.{McfgEntry, from_addr}

-- A device is the address of its configuration space.
pub data DeviceType : Type 0 where
  device : ℕ → DeviceType
  pci_bridge cardbus_bridge : DeviceType

-- `DeviceType::from` on the masked header type.
abbrev pub of_type : ℕ → ℕ → Run (Option DeviceType)
of_type a t =
    if t == 0
    then ok (some (device a))
    else if t == 1
    then ok (some pci_bridge)
    else if t == 2
    then ok (some cardbus_bridge)
    else if t == 0x7F
    then ok none
    else panic

unfoldable pub from : (ℕ → ℕ) → ℕ → Run (Option DeviceType)
unfolding from_addr
from mem a = of_type a ((from_addr mem a).header_type % 0x80)

abbrev pub as_device : DeviceType → Option ℕ
as_device (device a) = some a
as_device pci_bridge = none
as_device cardbus_bridge = none

unfoldable pub check_function : List ℕ → ℕ → List ℕ
check_function devices a = devices ++ (a ∷ [])

module _ (p : Profile) (mem : ℕ → ℕ) (phys_offset : ℕ) where
  unfoldable pub config_addr : McfgEntry → ℕ → ℕ → ℕ → Run ℕ
  config_addr bridge bus dev function = do
    base ← add_mod p u64_mod phys_offset bridge.config_space
    add_mod p u64_mod base (bit_or (bit_or (bus * 2 ^ 20) (dev * 2 ^ 15)) (function * 2 ^ 12))

  abbrev push_existing : List ℕ → ℕ → List ℕ
  push_existing devices a =
      if (from_addr mem a).vendor_id == 0xFFFF then devices else check_function devices a

  -- The functions of a multi-function device from one on.
  unfoldable pub check_functions : ℕ → ℕ → List ℕ → McfgEntry → ℕ → ℕ → Run (List ℕ)
  unfolding config_addr check_function from_addr
  check_functions zero function devices bridge bus dev = ok devices
  check_functions (suc n) function devices bridge bus dev = do
    a ← config_addr bridge bus dev function
    check_functions n (function + 1) (push_existing devices a) bridge bus dev

  abbrev pub check_config : List ℕ → McfgEntry → ℕ → ℕ → Option ℕ → Run (List ℕ)
  check_config devices bridge bus dev none = ok devices
  check_config devices bridge bus dev (some a) =
      if (from_addr mem a).vendor_id == 0xFFFF
      then ok devices
      else if (from_addr mem a).header_type / 0x80 % 2 == 0
      then ok (check_function devices a)
      else check_functions 7 1 (check_function devices a) bridge bus dev

  abbrev pub check_type : List ℕ → McfgEntry → ℕ → ℕ → Option DeviceType → Run (List ℕ)
  check_type devices bridge bus dev none = ok devices
  check_type devices bridge bus dev (some t) = check_config devices bridge bus dev (as_device t)

  unfoldable pub check_device : List ℕ → McfgEntry → ℕ → ℕ → Run (List ℕ)
  unfolding config_addr from
  check_device devices bridge bus dev = do
    a ← config_addr bridge bus dev 0
    t ← from mem a
    check_type devices bridge bus dev t

  -- The three loops, each from a first number on.
  unfoldable pub check_devices : ℕ → ℕ → List ℕ → McfgEntry → ℕ → Run (List ℕ)
  unfolding check_device
  check_devices zero dev devices bridge bus = ok devices
  check_devices (suc n) dev devices bridge bus = do
    more ← check_device devices bridge bus dev
    check_devices n (dev + 1) more bridge bus

  unfoldable pub check_buses : ℕ → ℕ → List ℕ → McfgEntry → Run (List ℕ)
  check_buses zero bus devices bridge = ok devices
  check_buses (suc n) bus devices bridge = do
    more ← check_devices 32 0 devices bridge bus
    check_buses n (bus + 1) more bridge

  unfoldable pub check_bridges : List ℕ → List McfgEntry → Run (List ℕ)
  check_bridges devices [] = ok devices
  check_bridges devices (bridge ∷ rest) = do
    more ← check_buses (bridge.end_bus - bridge.start_bus) bridge.start_bus devices bridge
    check_bridges more rest

  unfoldable pub enumerate_bus : List McfgEntry → Run (List ℕ)
  unfolding check_bridges
  enumerate_bus entries = check_bridges [] entries
