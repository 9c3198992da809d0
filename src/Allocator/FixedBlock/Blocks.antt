-- ===== src/Allocator/FixedBlock/Blocks.antt =====
-- Allocation and release keep the free lists valid, and never give a live block out again.
use mathlib.Core.Path.{subst}
use lobster_os_legacy.Prelude.{
  ℕ, ◌<◌, ◌≡◌, ◌≢◌, refl, sym, ap, ◌∙◌, Option, none, some, List, ◌∷◌, false, arith, length, le→leb,
  get_or, get_or-set_self, set, set-get_or, ◌⊎◌, ok, inl, inr, Option-cases,
}
use lobster_os_legacy.Allocator.FixedBlock.{
  Heap, Layout, FixedBlockAlloc, write, block_size, block_index, free_block, alloc_block, alloc,
  dealloc, or_null, node_size, fallback_alloc, alloc_at, dealloc_at,
}
use lobster_os_legacy.Allocator.FixedBlock.Index.{small_node, block_index_lem}
use lobster_os_legacy.Allocator.FixedBlock.Free.{has, Lists, update, IsValid}
use lobster_os_legacy.Allocator.FixedBlock.Chains.{free_block-IsValid, alloc_block-IsValid}

-- What is relied on of the fallback heap: a block that it gives is not null and is not in use, that
-- is neither live nor in a free list.
abbrev pub GivesUnused : (x : Heap) → FixedBlockAlloc (x.H) → Lists → List ℕ → Layout → Type 0
GivesUnused x a free live l =
    (p : ℕ)
    → (x.allocate_first_fit l a.fallback).0 ≡ some p
    → (p ≢ 0) × (has p live ≡ false) × ((i : ℕ) → i < 9 → has p (free i) ≡ false)

module _ (x : Heap) (a : FixedBlockAlloc (x.H)) (free : Lists) (live : List ℕ) where
  -- What an allocation that is served leaves: a block that was not live, and valid free lists.
  abbrev pub Served : ℕ × FixedBlockAlloc (x.H) → Type 0
  Served r = (r.0 ≡ 0) ⊎ ((has r.0 live ≡ false) × (free' : Lists) × IsValid r.1 free' (r.0 ∷ live))

  fallback-Served :
      (l : Layout)
      → IsValid a free live
      → GivesUnused x a free live l
      → Served (fallback_alloc x l a)
  unfolding fallback_alloc
  fallback-Served l v gives = elim (Option-cases (x.allocate_first_fit l a.fallback).0) [
    | inl refused ↦ inl (ap (or_null x) refused)
    | inr (p, e) ↦
        let (not_null, new, apart) = gives p e in
        inr (
          subst (λ o. has (or_null x o) live ≡ false) (sym e) new,
          free,
          subst (λ o. IsValid heap free (or_null x o ∷ live)) (sym e)
              (record {
                nine = v.nine;
                chains = v.chains;
                apart = v.apart;
                unused = λ j q lj h. ground (arith, v.unused j q lj h, apart j lj);
              }),
        )
  ]
    where
      heap : FixedBlockAlloc (x.H)
      heap = record a { fallback = (x.allocate_first_fit l a.fallback).1 }

  -- The layout that the fallback is asked for.
  abbrev pub request : Option ℕ → Layout → Layout
  request none l = l
  request (some i) l = record { size = block_size i; align = block_size i }

  alloc_at-Served :
      (o : Option ℕ) (l : Layout)
      → ((i : ℕ) → o ≡ some i → i < 9)
      → IsValid a free live
      → GivesUnused x a free live (request o l)
      → Served (alloc_at x o l a)
  unfolding alloc_block fallback_alloc
  alloc_at-Served none l small v gives = fallback-Served l v gives
  alloc_at-Served (some i) l small v gives = elim (Option-cases (get_or a.list_heads i none)) [
    | inl e ↦ subst (λ h. Served (alloc_block x i h a)) (sym e) (empty (request (some i) l) gives)
    | inr (p, e) ↦
        let (new, ps, split, valid) = alloc_block-IsValid x a free live i p (small i refl) e v in
        subst (λ h. Served (alloc_block x i h a)) (sym e) (reused i p ps new valid)
  ]
    where
      empty : (r : Layout) → GivesUnused x a free live r → Served (fallback_alloc x r a)
      empty r g = fallback-Served r v g

      reused :
          (i p : ℕ) (ps : List ℕ)
          → has p live ≡ false
          → IsValid (alloc_block x i (some p) a).1 (update free i ps) (p ∷ live)
          → Served (alloc_block x i (some p) a)
      reused i p ps new valid = inr (new, update free i ps, valid)

  class-lt : (l : Layout) (i : ℕ) → block_index l ≡ some i → i < 9
  class-lt l i e = elim (block_index_lem l) [
    | inl (k, found, lt, rest, smaller, node) ↦ ground (arith, found, e)
    | inr (nowhere, big) ↦ absurd (ground (arith, nowhere, e))
  ]

  -- With valid free lists, and a fallback heap that gives no block in use, `alloc` gives either null
  -- or a block that was not live, and leaves valid free lists with that block live and in none of
  -- them.
  pub alloc-Served :
      (l : Layout)
      → IsValid a free live
      → GivesUnused x a free live (request (block_index l) l)
      → Served (alloc x l a)
  unfolding alloc
  alloc-Served l v gives = alloc_at-Served (block_index l) l (class-lt l) v gives

  -- With valid free lists, the release of a live block of a layout that has a size class does not
  -- panic, puts the block in front of the free list of that class, and leaves valid free lists in
  -- which it is not live.
  pub dealloc-IsValid :
      (l : Layout) (i p : ℕ)
      → block_index l ≡ some i
      → has p live ≡ false
      → IsValid a free (p ∷ live)
      → (a' : FixedBlockAlloc (x.H)) × (dealloc x p l a ≡ ok a')
        × IsValid a' (update free i (p ∷ free i)) live
  unfolding dealloc
  dealloc-IsValid l i p e out v =
      let lt = class-lt l i e in
      (
        free_block x i p a,
        subst (λ o. dealloc_at x o p l a ≡ ok (free_block x i p a)) (sym e)
            (rw (le→leb node_size (block_size i) (small_node i lt))),
        free_block-IsValid x a free live i p lt out v,
      )

  -- A block of a layout that has a size class, once released, is the next one that an allocation
  -- of its size class gives, whatever the layouts within the class, and the heads of the nine
  -- free lists are then as they were.
  pub alloc-dealloc :
      (l l' : Layout) (i p : ℕ)
      → length a.list_heads ≡ 9
      → block_index l ≡ some i
      → block_index l' ≡ some i
      → (a' : FixedBlockAlloc (x.H)) × (dealloc x p l a ≡ ok a')
        × ((alloc x l' a').0 ≡ p)
        × ((alloc x l' a').1.list_heads ≡ a.list_heads)
  unfolding dealloc alloc
  alloc-dealloc l l' i p nine e e' =
      let lt = class-lt l i e in
      let b = free_block x i p a in
      let head : get_or b.list_heads i none ≡ some p =
        get_or-set_self a.list_heads i (some p) none (omega (arith, nine)) in
      let same : alloc x l' b ≡ alloc_block x i (some p) b =
        ap (λ o. alloc_at x o l' b) e' ∙ ap (λ h. alloc_block x i h b) head in
      (
        b,
        subst (λ o. dealloc_at x o p l a ≡ ok b) (sym e)
            (rw (le→leb node_size (block_size i) (small_node i lt))),
        ap (λ r. r.0) same,
        ap (λ r. r.1.list_heads) same
            ∙ ap (set (set a.list_heads i (some p)) i) written
            ∙ set-get_or a.list_heads i (some p) none,
      )
    where
      written : write a.mem p (get_or a.list_heads i none) p ≡ get_or a.list_heads i none
      written = ground arith
