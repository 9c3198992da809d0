-- ===== src/Memory/Handover.antt =====
-- `lobster::init` maps the heap with the linear allocator and hands its count of used frames to the
-- buddy allocator. What each allocator gives out, and what the two give out together.
use lobster_os_legacy.Prelude.{
  ℕ, zero, suc, ◌+◌, ◌≤◌, ◌≡◌, refl, Option, none, some, List, [], ◌∷◌, arith, drop, get_elem?,
}
use lobster_os_legacy.Memory.{MemoryMap, usable_frames, frame_size}
use lobster_os_legacy.Memory.Buddy
use lobster_os_legacy.Memory.Buddy.{BuddyAllocator, next_frame}
use lobster_os_legacy.Memory.Linear
use lobster_os_legacy.Memory.Linear.{LinearFrameAllocator}
use lobster_os_legacy.Memory.Frames.{IsAligned, IsOrdered, IsAscending, usable_frames-IsAscending}

-- `n` frames in a row, as far as there are any.
pub take_frames : ℕ → BuddyAllocator → List ℕ × BuddyAllocator
take_frames zero b = ([], b)
take_frames (suc n) b = let (f, b') = Buddy.allocate_frame b in more f (take_frames n b')
  where
    more : Option ℕ → List ℕ × BuddyAllocator → List ℕ × BuddyAllocator
    more none r = ([], r.1)
    more (some x) r = (x ∷ r.0, r.1)

pub calls : ℕ → LinearFrameAllocator → LinearFrameAllocator
calls zero l = l
calls (suc n) l = calls n (Linear.allocate_frame l).1

-- After `n` calls of a linear allocator whose count was `k` (0 for a new one) `get_used` is `k +
-- n`, and the next call gives out the usable frame of index `k + n + 1`, if there is one: the
-- first usable frame, of index 0, is never given out.
pub linear_frames :
    (mm : MemoryMap) (n k : ℕ)
    → let l = calls n (record { memory_map = mm; next = k }) in
      (Linear.get_used l ≡ k + n)
      × ((Linear.allocate_frame l).0 ≡ get_elem? (usable_frames mm) (k + n + 1))
unfolding calls Linear.get_used Linear.allocate_frame
linear_frames mm zero k = let e : k + 0 ≡ k = omega arith in rw e (refl, refl)
linear_frames mm (suc n) k =
    let e : k + suc n ≡ k + 1 + n = omega arith in rw e (linear_frames mm n (k + 1))

first_of_drop :
    (n : ℕ) (xs : List ℕ) (b : BuddyAllocator) → (next_frame (drop n xs) b).0 ≡ get_elem? xs n
first_of_drop zero [] b = refl
first_of_drop zero (x ∷ xs) b = refl
first_of_drop (suc n) [] b = refl
first_of_drop (suc n) (x ∷ xs) b = first_of_drop n xs b

-- The frame that the linear allocator gave out last is the first frame that the buddy allocator,
-- started with the linear one's count of used frames, gives out: it is allocated twice.
pub handover_overlaps :
    (l : LinearFrameAllocator)
    → let (frame, l') = Linear.allocate_frame l in
      (Buddy.allocate_frame (Buddy.init l.memory_map (Linear.get_used l'))).0 ≡ frame
unfolding Linear.allocate_frame Linear.get_used Buddy.allocate_frame Buddy.init
handover_overlaps l = first_of_drop (l.next + 1) (usable_frames l.memory_map) _

IsAscending-weaken : (a b : ℕ) (xs : List ℕ) → a ≤ b → IsAscending b xs → IsAscending a xs
IsAscending-weaken a b [] l h = tt
IsAscending-weaken a b (x ∷ xs) l h = (omega arith, h.1)

IsAscending-drop : (n lo : ℕ) (xs : List ℕ) → IsAscending lo xs → IsAscending lo (drop n xs)
IsAscending-drop zero lo xs h = h
IsAscending-drop (suc n) lo [] h = tt
IsAscending-drop (suc n) lo (x ∷ xs) h =
    IsAscending-drop n lo xs (IsAscending-weaken lo (x + frame_size) xs (omega arith) h.1)

take_frames-IsAscending :
    (n lo : ℕ) (mm : MemoryMap) (xs : List ℕ)
    → IsAscending lo xs
    → IsAscending lo (take_frames n (record { memory_map = mm; frame_iter = xs })).0
unfolding take_frames Buddy.allocate_frame
take_frames-IsAscending zero lo mm xs h = tt
take_frames-IsAscending (suc n) lo mm [] h = tt
take_frames-IsAscending (suc n) lo mm (x ∷ xs) h =
    (h.0, take_frames-IsAscending n (x + frame_size) mm xs h.1)

-- Over an ordered page-aligned map, the frames of any number of calls of the buddy allocator are
-- ascending, each behind the end of the one before it: by itself it gives no memory out twice.
pub buddy-IsAscending :
    (n used lo : ℕ) (mm : MemoryMap)
    → IsAligned mm
    → IsOrdered lo mm
    → IsAscending lo (take_frames n (Buddy.init mm used)).0
unfolding Buddy.init
buddy-IsAscending n used lo mm al o =
    take_frames-IsAscending n lo mm (drop used (usable_frames mm))
      (IsAscending-drop used lo (usable_frames mm) (usable_frames-IsAscending mm lo al o))
