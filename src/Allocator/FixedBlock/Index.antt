-- ===== src/Allocator/FixedBlock/Index.antt =====
-- The size class of a layout.
use lobster_os_legacy.Prelude.{
  ℕ, zero, suc, ◌+◌, ◌≤◌, ◌<◌, ◌≡◌, refl, ◌⊎◌, inl, inr, none, some, List, [], ◌∷◌, arith, max,
  get_or, false, length, All, leb, Bool-cases, ap, ◌∙◌, leb→le,
}
use lobster_os_legacy.Allocator.FixedBlock.{
  Layout, position, block_sizes, block_index, block_size, node_size,
}

-- The first entry that is large enough, or none is.
abbrev Places : ℕ → ℕ → List ℕ → Type 0
Places r i bs =
    ((k : ℕ) × (position r i bs ≡ some (i + k))
      × (k < length bs)
      × (r ≤ get_or bs k 0)
      × ((j : ℕ) → j < k → get_or bs j 0 < r))
    ⊎ ((position r i bs ≡ none) × All (λ b. b < r) bs)

position_lem : (r i : ℕ) (bs : List ℕ) → Places r i bs
position_lem r i [] = inr (refl, tt)
position_lem r i (b ∷ bs) = elim (Bool-cases (leb r b)) [
  | inl e ↦ inl (
    0,
    (rw (e, position) (ap some (omega arith))),
    omega arith,
    leb→le r b e,
    λ j h. absurd (omega arith),
  )
  | inr e ↦ further e (position_lem r (i + 1) bs)
]
  where
    further : leb r b ≡ false → Places r (i + 1) bs → Places r i (b ∷ bs)
    further e (inl (k, found, l, fits, smaller)) =
        inl (suc k, (rw (e, position) (found ∙ ap some (omega arith))), omega arith, fits, before)
      where
        before : (j : ℕ) → j < suc k → get_or (b ∷ bs) j 0 < r
        before zero h = ground arith
        before (suc j) h = smaller j (omega arith)
    further e (inr (nowhere, all)) = inr ((rw (e, position) nowhere), (ground arith, all))

pub small_node : (i : ℕ) → i < 9 → node_size ≤ block_size i
small_node zero h = omega arith
small_node (suc zero) h = omega arith
small_node (suc (suc zero)) h = omega arith
small_node (suc (suc (suc zero))) h = omega arith
small_node (suc (suc (suc (suc zero)))) h = omega arith
small_node (suc (suc (suc (suc (suc zero))))) h = omega arith
small_node (suc (suc (suc (suc (suc (suc zero)))))) h = omega arith
small_node (suc (suc (suc (suc (suc (suc (suc zero))))))) h = omega arith
small_node (suc (suc (suc (suc (suc (suc (suc (suc zero)))))))) h = omega arith
small_node (suc (suc (suc (suc (suc (suc (suc (suc (suc i))))))))) h = absurd (omega arith)

-- `block_index` gives the smallest size class in which the size and the alignment fit, large enough
-- for a list node too, and none exactly if the layout needs more than 2048 bytes.
pub block_index_lem :
    (l : Layout)
    → ((i : ℕ) × (block_index l ≡ some i)
        × (i < 9)
        × (max l.size l.align ≤ block_size i)
        × ((j : ℕ) → j < i → block_size j < max l.size l.align)
        × (node_size ≤ block_size i))
      ⊎ ((block_index l ≡ none) × (2048 < max l.size l.align))
unfolding block_index
block_index_lem l = elim (position_lem (max l.size l.align) 0 block_sizes) [
  | inl (k, found, lt, fits, smaller) ↦
      inl (k, found ∙ ap some (omega arith), lt, fits, smaller, small_node k lt)
  | inr (nowhere, all) ↦ inr (nowhere, omega arith)
]
