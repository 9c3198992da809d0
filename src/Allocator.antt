-- ===== src/Allocator.antt =====
-- The kernel heap: `init_heap` of src/allocator.rs here, the block allocator of
-- src/allocator/fixed_block.rs in `FixedBlock`.
pub mod InitHeap
pub mod FixedBlock
mod Tests
use lobster_os_legacy.Prelude.{
  ℕ, zero, suc, ◌+◌, ◌-◌, ◌*◌, ◌%◌, ◌/◌, Option, none, some, List, [], ◌∷◌,
}
use lobster_os_legacy.Paging.{MapToError, frame_allocation_failed, Paging}

abbrev pub heap_start : ℕ
heap_start = 0x444444440000

abbrev pub heap_size : ℕ
heap_size = 0x100 * 0x1000

abbrev pub page_of : ℕ → ℕ
page_of a = a - a % 0x1000

-- The pages from one page on.
unfoldable pub pages : ℕ → ℕ → List ℕ
pages zero a = []
pages (suc n) a = a ∷ pages n (a + 0x1000)

-- `Page::range_inclusive`
unfoldable pub range_inclusive : ℕ → ℕ → List ℕ
unfolding pages
range_inclusive first last = pages ((last + 0x1000 - first) / 0x1000) first

-- PRESENT | WRITABLE
abbrev pub heap_flags : ℕ
heap_flags = 3

module _ (x : Paging) where
  open x use {M, F, allocate_frame, map_to}

  abbrev pub map_frame : ℕ → M → Option ℕ × F → Option MapToError × M × F
  map_frame page m (none, f) = (some frame_allocation_failed, m, f)
  map_frame page m (some frame, f) = map_to page frame heap_flags m f

  -- One round of the loop.
  abbrev pub map_page : ℕ → M → F → Option MapToError × M × F
  map_page page m f = map_frame page m (allocate_frame f)

  -- The loop over the pages ends at the first error.
  unfoldable pub map_pages : List ℕ → M → F → Option MapToError × M × F
  map_pages [] m f = (none, m, f)
  map_pages (page ∷ rest) m f =
      let r = map_page page m f in elim r.0 [ some e ↦ r | none ↦ map_pages rest r.1 r.2 ]

  module _ {A : Type 0} (init : ℕ → ℕ → A → A) where
    abbrev pub init_on : A → Option MapToError → A
    init_on a none = init heap_start heap_size a
    init_on a (some e) = a

    -- `init` is that of the global allocator, whose state is `a`.
    unfoldable pub init_heap : M → F → A → Option MapToError × M × F × A
    unfolding map_pages range_inclusive
    init_heap m f a =
        let heap_end_addr = heap_start + heap_size - 1 in
        let r = map_pages (range_inclusive (page_of heap_start) (page_of heap_end_addr)) m f in
        (r.0, r.1, r.2, init_on a r.0)
