-- ===== src/Memory/Linear.antt =====
-- `LinearFrameAllocator`: the n-th call looks the frame up in a fresh iterator.
use lobster_os_legacy.Prelude.{ℕ, ◌+◌, Option, get_elem?}
use lobster_os_legacy.Memory.{MemoryMap, usable_frames}

-- `next` counts calls, so the increment of the `usize` cannot overflow.
pub record LinearFrameAllocator : Type 0 where
  pub memory_map : MemoryMap
  pub next : ℕ

unfoldable pub init : MemoryMap → LinearFrameAllocator
init mm = record { memory_map = mm; next = 0 }

unfoldable pub get_used : LinearFrameAllocator → ℕ
get_used l = l.next

unfoldable pub allocate_frame : LinearFrameAllocator → Option ℕ × LinearFrameAllocator
allocate_frame l =
    let l' = record l { next = l.next + 1 } in (get_elem? (usable_frames l'.memory_map) l'.next, l')
