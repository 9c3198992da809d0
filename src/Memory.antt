-- ===== src/Memory.antt =====
-- The physical frame allocators of src/memory.rs. A memory map is the list of its regions as the
-- boot loader reports them; a frame is the address it starts at; an iterator is the list of what it
-- still yields.
pub mod Buddy
pub mod Linear
pub mod Frames
pub mod Handover
mod Tests
use lobster_os_legacy.Prelude.{
  ℕ, zero, suc, ◌+◌, ◌-◌, ◌/◌, ◌%◌, Bool, true, false, Option, none, some, List, [], ◌∷◌, ◌++◌,
  drop, get_elem?, if◌then◌else◌, map,
}

abbrev pub frame_size : ℕ
frame_size = 4096

-- `usable` says that the region's type is `MemoryRegionType::Usable`.
pub record Region : Type 0 where
  pub usable : Bool
  pub start_addr : ℕ
  pub end_addr : ℕ

abbrev pub MemoryMap : Type 0
MemoryMap = List Region

-- `n` addresses from `a` on, a frame apart.
unfoldable pub steps : ℕ → ℕ → List ℕ
steps zero a = []
steps (suc n) a = a ∷ steps n (a + frame_size)

-- `(a..b).step_by(4096)`
abbrev pub step_by : ℕ → ℕ → List ℕ
step_by a b = steps ((b - a + 4095) / frame_size) a

abbrev pub containing_address : ℕ → ℕ
containing_address a = a - a % frame_size

-- The frames of the usable regions, in the order of the map.
unfoldable pub usable_frames : MemoryMap → List ℕ
usable_frames [] = []
usable_frames (r ∷ rs) =
    (if r.usable then map containing_address (step_by r.start_addr r.end_addr) else [])
    ++ usable_frames rs
