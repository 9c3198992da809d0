-- ===== src/Memory/Frames.antt =====
-- Which frames `usable_frames` yields, and in which order.
use mathlib.Core.Path.{subst}
use lobster_os_legacy.Prelude.{
  sym, ℕ, zero, suc, ◌+◌, ◌-◌, ◌*◌, ◌%◌, ◌≤◌, ◌<◌, ◌≡◌, inl, inr, Bool, true, List, [], ◌∷◌, ◌++◌,
  arith, All, All-append, map, if◌then◌else◌, Bool-cases,
}
use lobster_os_legacy.Memory.{
  Region, MemoryMap, frame_size, steps, step_by, containing_address, usable_frames,
}

-- A frame that begins inside a usable region of the map.
pub data InRegion (a : ℕ) : MemoryMap → Type 0 where
  here :
      {r : Region} {rs : MemoryMap}
      → r.usable ≡ true
      → r.start_addr ≤ a
      → a < r.end_addr
      → InRegion a (r ∷ rs)
  there : {r : Region} {rs : MemoryMap} → InRegion a rs → InRegion a (r ∷ rs)

-- The boot loader's regions begin and end at frame boundaries.
abbrev pub IsAligned : MemoryMap → Type 0
IsAligned = All (λ r. (r.start_addr % frame_size ≡ 0) × (r.end_addr % frame_size ≡ 0))

abbrev Good : Region → MemoryMap → ℕ → Type 0
Good r rs a = (a % frame_size ≡ 0) × InRegion a (r ∷ rs)

abbrev chosen : Region → Bool → List ℕ
chosen r b = if b then map containing_address (step_by r.start_addr r.end_addr) else []

All-there :
    (r : Region) (rs : MemoryMap) (xs : List ℕ)
    → All (λ a. (a % frame_size ≡ 0) × InRegion a rs) xs
    → All (λ a. (a % frame_size ≡ 0) × InRegion a (r ∷ rs)) xs
All-there r rs [] h = tt
All-there r rs (x ∷ xs) h = ((h.0.0, InRegion.there h.0.1), All-there r rs xs h.1)

steps-InRegion :
    (r : Region) (rs : MemoryMap) (n a : ℕ)
    → r.usable ≡ true
    → a % frame_size ≡ 0
    → r.start_addr ≤ a
    → n * frame_size ≤ r.end_addr - a
    → All (λ a. (a % frame_size ≡ 0) × InRegion a (r ∷ rs)) (map containing_address (steps n a))
unfolding steps
steps-InRegion r rs zero a u al lo hi = tt
steps-InRegion r rs (suc n) a u al lo hi = (
  (omega arith, InRegion.here u (omega arith) (omega arith)),
  steps-InRegion r rs n (a + frame_size) u (omega arith) (omega arith) (omega arith),
)

-- Over a page-aligned map every frame that is yielded is page-aligned and lies in a usable region.
pub usable_frames-InRegion :
    (mm : MemoryMap)
    → IsAligned mm
    → All (λ a. (a % frame_size ≡ 0) × InRegion a mm) (usable_frames mm)
unfolding usable_frames
usable_frames-InRegion [] al = tt
usable_frames-InRegion (r ∷ rs) al =
    let rest = All-there r rs (usable_frames rs) (usable_frames-InRegion rs al.1) in
    elim (Bool-cases r.usable) [
      | inl u ↦
          subst (λ b. All (Good r rs) (chosen r b ++ usable_frames rs)) (sym u)
            (All-append (Good r rs) (chosen r true) (usable_frames rs)
              (steps-InRegion r rs _ r.start_addr u al.0.0 (omega arith) (omega (arith, al.0)))
              rest)
      | inr u ↦ subst (λ b. All (Good r rs) (chosen r b ++ usable_frames rs)) (sym u) rest
    ]

-- The regions follow one another from `lo` on without overlap.
abbrev pub IsOrdered : ℕ → MemoryMap → Type 0
IsOrdered lo [] = Unit
IsOrdered lo (r ∷ rs) = (lo ≤ r.start_addr) × (r.start_addr ≤ r.end_addr) × IsOrdered r.end_addr rs

-- Frames from `lo` on, each behind the end of the one before it.
abbrev pub IsAscending : ℕ → List ℕ → Type 0
IsAscending lo [] = Unit
IsAscending lo (x ∷ xs) = (lo ≤ x) × IsAscending (x + frame_size) xs

IsAscending-weaken : (a b : ℕ) (xs : List ℕ) → a ≤ b → IsAscending b xs → IsAscending a xs
IsAscending-weaken a b [] l h = tt
IsAscending-weaken a b (x ∷ xs) l h = (omega arith, h.1)

steps-IsAscending :
    (n a b : ℕ) (xs : List ℕ)
    → a % frame_size ≡ 0
    → a + n * frame_size ≤ b
    → IsAscending b xs
    → IsAscending a (map containing_address (steps n a) ++ xs)
unfolding steps
steps-IsAscending zero a b xs al l h = IsAscending-weaken a b xs (omega arith) h
steps-IsAscending (suc n) a b xs al l h =
    let same : containing_address a ≡ a = omega arith in
    (omega arith, rw same (steps-IsAscending n (a + frame_size) b xs (omega arith) (omega arith) h))

-- Over an ordered page-aligned map the frames come in ascending order, each behind the end of the
-- one before it: no frame is yielded twice and no two overlap.
pub usable_frames-IsAscending :
    (mm : MemoryMap) (lo : ℕ) → IsAligned mm → IsOrdered lo mm → IsAscending lo (usable_frames mm)
unfolding usable_frames
usable_frames-IsAscending [] lo al o = tt
usable_frames-IsAscending (r ∷ rs) lo al o =
    let rest = usable_frames-IsAscending rs r.end_addr al.1 o.2 in
    elim (Bool-cases r.usable) [
      | inl u ↦
          subst (λ b. IsAscending lo (chosen r b ++ usable_frames rs)) (sym u)
            (IsAscending-weaken lo r.start_addr _ o.0 (
              steps-IsAscending _ r.start_addr r.end_addr (usable_frames rs) al.0.0
                (omega (arith, al.0, o.1)) rest))
      | inr u ↦
          subst (λ b. IsAscending lo (chosen r b ++ usable_frames rs)) (sym u)
            (IsAscending-weaken lo r.end_addr (usable_frames rs) (omega (arith, o.0, o.1)) rest)
    ]
