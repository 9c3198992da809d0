-- ===== src/Memory/Buddy.antt =====
-- `BuddyAllocator`: the usable frames in order, without those that are in use already.
use lobster_os_legacy.Prelude.{ℕ, Option, none, some, List, [], ◌∷◌, drop}
use lobster_os_legacy.Memory.{MemoryMap, usable_frames}

pub record BuddyAllocator : Type 0 where
  pub memory_map : MemoryMap
  pub frame_iter : List ℕ

unfoldable pub init : MemoryMap → ℕ → BuddyAllocator
init mm used = record { memory_map = mm; frame_iter = drop used (usable_frames mm) }

-- `frame_iter.next()`
abbrev pub next_frame : List ℕ → BuddyAllocator → Option ℕ × BuddyAllocator
next_frame [] b = (none, b)
next_frame (x ∷ xs) b = (some x, record b { frame_iter = xs })

unfoldable pub allocate_frame : BuddyAllocator → Option ℕ × BuddyAllocator
allocate_frame b = next_frame b.frame_iter b
