-- ===== src/Allocator/Tests.antt =====
-- The heap over page tables that accept its pages one after another.
use lobster_os_legacy.Prelude.{ℕ, ◌≤◌, ◌<◌, ◌≡◌, refl, none, some, arith, ◌⊎◌, max}
use lobster_os_legacy.Paging.Flat.{flat, translate}
use lobster_os_legacy.Allocator.{
  heap_start, heap_size, page_of, range_inclusive, pages, map_pages, init_heap,
}
use lobster_os_legacy.Allocator.InitHeap.{init_heap-maps}
use lobster_os_legacy.Allocator.FixedBlock.{Layout, block_index, block_size, node_size}
use lobster_os_legacy.Allocator.FixedBlock.Index.{block_index_lem}

abbrev record_bounds : ℕ → ℕ → ℕ × ℕ → ℕ × ℕ
record_bounds start size a = (start, size)

init_heap_succeeds : (init_heap flat record_bounds heap_start heap_start (0, 0)).0 ≡ none
unfolding init_heap range_inclusive pages map_pages
init_heap_succeeds = refl

init_heap-maps_example :
    ((frame : ℕ) × (translate
          (init_heap flat record_bounds heap_start heap_start (0, 0)).1
          (page_of 0x444444441234)
        ≡ some frame))
    × ((init_heap flat record_bounds heap_start heap_start (0, 0)).3
        ≡ record_bounds heap_start heap_size (0, 0))
init_heap-maps_example =
    init_heap-maps flat record_bounds heap_start heap_start (0, 0) init_heap_succeeds 0x444444441234
      (omega arith) (omega arith)

abbrev three_words : Layout
three_words = record { size = 24; align = 8 }

block_index_lem_example :
    ((i : ℕ) × (block_index three_words ≡ some i)
      × (i < 9)
      × (max three_words.size three_words.align ≤ block_size i)
      × ((j : ℕ) → j < i → block_size j < max three_words.size three_words.align)
      × (node_size ≤ block_size i))
    ⊎ ((block_index three_words ≡ none) × (2048 < max three_words.size three_words.align))
block_index_lem_example = block_index_lem three_words
