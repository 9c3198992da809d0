-- ===== src/Allocator/FixedBlock.antt =====
-- The global allocator of src/allocator/fixed_block.rs: free lists of blocks of nine sizes, threaded
-- through the free blocks themselves, over a fallback heap. A pointer is its address, null is 0;
-- `mem` is the memory as far as the allocator writes it: the `next` field of the node at an address.
-- The fallback is `linked_list_allocator::Heap`, a crate, and stays a parameter.
pub mod Index
pub mod Free
pub mod Chains
pub mod Blocks
mod Tests
use lobster_os_legacy.Prelude.{
  ℕ, zero, suc, ◌+◌, ◌≤◌, ◌≡◌, Option, none, some, List, [], ◌∷◌, Bool, true, false, leb, ltb, ◌==◌,
  if◌then◌else◌, get_or, set, max, Run, ok, panic, ◌>>=◌, replicate,
}

pub record Layout : Type 0 where
  pub size : ℕ
  pub align : ℕ

abbrev pub block_sizes : List ℕ
block_sizes = 8 ∷ 16 ∷ 32 ∷ 64 ∷ 128 ∷ 256 ∷ 512 ∷ 1024 ∷ 2048 ∷ []

-- `iter().position(|&block_size| block_size >= required)`, counted from `i`.
abbrev pub position : ℕ → ℕ → List ℕ → Option ℕ
position required i [] = none
position required i (b ∷ bs) = if leb required b then some i else position required (i + 1) bs

unfoldable pub block_index : Layout → Option ℕ
block_index l = position (max l.size l.align) 0 block_sizes

abbrev pub block_size : ℕ → ℕ
block_size i = get_or block_sizes i 0

-- The fallback heap: `none` is its error.
pub record Heap : Type 1 where
  pub H : Type 0
  pub empty : H
  pub init : ℕ → ℕ → H → H
  pub allocate_first_fit : Layout → H → Option ℕ × H
  pub deallocate : ℕ → Layout → H → H

pub record FixedBlockAlloc (H : Type 0) : Type 0 where
  pub list_heads : List (Option ℕ)
  pub mem : ℕ → Option ℕ
  pub fallback : H

-- `size_of::<ListNode>()` and `align_of::<ListNode>()`: one pointer.
abbrev pub node_size : ℕ
node_size = 8

abbrev pub write : (ℕ → Option ℕ) → ℕ → Option ℕ → ℕ → Option ℕ
write mem p v q = if p == q then v else mem q

module _ (x : Heap) where
  open x use {H, empty, allocate_first_fit, deallocate, init as heap_init}

  pub new : (ℕ → Option ℕ) → FixedBlockAlloc H
  new mem = record { list_heads = replicate 9 none; mem = mem; fallback = empty }

  pub init : ℕ → ℕ → FixedBlockAlloc H → FixedBlockAlloc H
  init heap_start heap_size a = record a { fallback = heap_init heap_start heap_size a.fallback }

  abbrev pub or_null : Option ℕ → ℕ
  or_null none = 0
  or_null (some p) = p

  unfoldable pub fallback_alloc : Layout → FixedBlockAlloc H → ℕ × FixedBlockAlloc H
  fallback_alloc l a =
      let (r, h) = allocate_first_fit l a.fallback in (or_null r, record a { fallback = h })

  -- The free list at an index: its first block is taken off, or the fallback gives a new one.
  unfoldable pub alloc_block : ℕ → Option ℕ → FixedBlockAlloc H → ℕ × FixedBlockAlloc H
  unfolding fallback_alloc
  alloc_block i (some node) a =
      (node, record a { list_heads = set a.list_heads i (a.mem node); mem = write a.mem node none })
  alloc_block i none a = fallback_alloc (record { size = block_size i; align = block_size i }) a

  abbrev pub alloc_at : Option ℕ → Layout → FixedBlockAlloc H → ℕ × FixedBlockAlloc H
  alloc_at (some i) l a = alloc_block i (get_or a.list_heads i none) a
  alloc_at none l a = fallback_alloc l a

  unfoldable pub alloc : Layout → FixedBlockAlloc H → ℕ × FixedBlockAlloc H
  unfolding alloc_block block_index
  alloc l a = alloc_at (block_index l) l a

  abbrev pub free_block : ℕ → ℕ → FixedBlockAlloc H → FixedBlockAlloc H
  free_block i p a = record a {
    list_heads = set a.list_heads i (some p);
    mem = write a.mem p (get_or a.list_heads i none);
  }

  -- The assertions on the block size, and the check for a null pointer, panic.
  abbrev pub dealloc_at : Option ℕ → ℕ → Layout → FixedBlockAlloc H → Run (FixedBlockAlloc H)
  dealloc_at (some i) p l a = if leb node_size (block_size i) then ok (free_block i p a) else panic
  dealloc_at none p l a =
      if p == 0 then panic else ok (record a { fallback = deallocate p l a.fallback })

  unfoldable pub dealloc : ℕ → Layout → FixedBlockAlloc H → Run (FixedBlockAlloc H)
  unfolding block_index
  dealloc p l a = dealloc_at (block_index l) p l a
