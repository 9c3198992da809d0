-- ===== src/Memory/Tests.antt =====
-- The frame allocators over a small memory map.
use lobster_os_legacy.Prelude.{◌%◌, ◌≡◌, refl, true, false, some, [], ◌∷◌, arith, All}
use lobster_os_legacy.Memory.{MemoryMap, usable_frames, frame_size, steps}
use lobster_os_legacy.Memory.Buddy
use lobster_os_legacy.Memory.Linear
use lobster_os_legacy.Memory.Linear.{LinearFrameAllocator}
use lobster_os_legacy.Memory.Frames.{
  InRegion, IsAscending, usable_frames-InRegion, usable_frames-IsAscending,
}
use lobster_os_legacy.Memory.Handover.{handover_overlaps}

abbrev memory_map : MemoryMap
memory_map =
    record { usable = true; start_addr = 0x1000; end_addr = 0x3000 }
    ∷ record { usable = false; start_addr = 0x3000; end_addr = 0x8000 }
    ∷ record { usable = true; start_addr = 0x8000; end_addr = 0xb000 }
    ∷ []

frames : usable_frames memory_map ≡ 0x1000 ∷ 0x2000 ∷ 0x8000 ∷ 0x9000 ∷ 0xa000 ∷ []
unfolding usable_frames steps
frames = refl

abbrev linear : LinearFrameAllocator
linear = record { memory_map = memory_map; next = 0 }

usable_frames-InRegion_example :
    All (λ a. (a % frame_size ≡ 0) × InRegion a memory_map) (usable_frames memory_map)
usable_frames-InRegion_example = usable_frames-InRegion memory_map (omega arith)

usable_frames-IsAscending_example : IsAscending 0 (usable_frames memory_map)
usable_frames-IsAscending_example =
    usable_frames-IsAscending memory_map 0 (omega arith) (omega arith)

handover_overlaps_example :
    let (frame, l') = Linear.allocate_frame linear in
    (Buddy.allocate_frame (Buddy.init memory_map (Linear.get_used l'))).0 ≡ frame
handover_overlaps_example = handover_overlaps linear

-- There the frame is 0x2000.
first_frame : (Linear.allocate_frame linear).0 ≡ some 0x2000
unfolding Linear.allocate_frame usable_frames steps
first_frame = refl
