-- ===== src/Allocator/FixedBlock/Free.antt =====
-- The free lists as chains through the memory, and what the allocator keeps true of them.
use lobster_os_legacy.Prelude.{
  ℕ, ◌<◌, ◌≡◌, Option, none, some, List, [], ◌∷◌, Bool, true, false, ◌||◌, arith, length, get_or,
  ◌==◌, if◌then◌else◌,
}
use lobster_os_legacy.Allocator.FixedBlock.{FixedBlockAlloc, write}

abbrev pub has : ℕ → List ℕ → Bool
has a [] = false
has a (p ∷ ps) = (a == p) || has a ps

-- From `head` the `next` fields lead through the distinct blocks `ps` to the end.
pub data Chain (mem : ℕ → Option ℕ) : Option ℕ → List ℕ → Type 0 where
  nil : Chain mem none []
  cons :
      {p : ℕ} {n : Option ℕ} {ps : List ℕ}
      → mem p ≡ n
      → has p ps ≡ false
      → Chain mem n ps
      → Chain mem (some p) (p ∷ ps)

-- A write elsewhere leaves a chain as it is.
pub Chain-write :
    {mem : ℕ → Option ℕ} {head : Option ℕ} {ps : List ℕ} (q : ℕ) (v : Option ℕ)
    → Chain mem head ps
    → has q ps ≡ false
    → Chain (write mem q v) head ps
Chain-write q v nil h = nil
Chain-write q v (cons {p} e out c) h =
    cons (ground (arith, e)) out (Chain-write q v c (ground arith))

-- The free blocks of each size class, by its index.
abbrev pub Lists : Type 0
Lists = ℕ → List ℕ

abbrev pub update : Lists → ℕ → List ℕ → Lists
update free i ps j = if i == j then ps else free j

-- Each free list is the chain of its head; no block is free twice; no live block is free.
pub record IsValid {H : Type 0} (a : FixedBlockAlloc H) (free : Lists) (live : List ℕ)
    : Type 0 where
  pub nine : length a.list_heads ≡ 9
  pub chains : (i : ℕ) → i < 9 → Chain a.mem (get_or a.list_heads i none) (free i)
  pub apart : (i j p : ℕ) → i < 9 → j < 9 → has p (free i) ≡ true → has p (free j) ≡ true → i ≡ j
  pub unused : (i p : ℕ) → i < 9 → has p (free i) ≡ true → has p live ≡ false
