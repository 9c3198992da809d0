-- ===== src/Paging.antt =====
-- The page tables as the kernel uses them: `Mapper::map_to` and `FrameAllocator::allocate_frame` of
-- the x86_64 crate, whose code is not part of the repository. `M` is the state of the page tables,
-- `F` that of a frame allocator; pages and frames are the addresses that they start at. The laws are
-- what the crate documents of `map_to` for pages of 4 KiB.
pub mod Flat
use lobster_os_legacy.Prelude.{ℕ, ◌≡◌, ◌≢◌, Option, none, some}

pub data MapToError : Type 0 where
  frame_allocation_failed parent_entry_huge_page : MapToError
  page_already_mapped : ℕ → MapToError

-- `flags` is the number of the flag bits; a `none` is success.
pub record Paging : Type 1 where
  pub M : Type 0
  pub F : Type 0
  pub allocate_frame : F → Option ℕ × F
  pub map_to : (page frame flags : ℕ) → M → F → Option MapToError × M × F
  pub translate : M → ℕ → Option ℕ
  -- A mapped page translates to its frame, and the other pages translate as before.
  pub map_to-translate :
      (page frame flags : ℕ) (m : M) (f : F)
      → (map_to page frame flags m f).0 ≡ none
      → translate (map_to page frame flags m f).1 page ≡ some frame
  pub map_to-other :
      (page frame flags other : ℕ) (m : M) (f : F)
      → other ≢ page
      → translate (map_to page frame flags m f).1 other ≡ translate m other
  -- A page that is mapped is not mapped again.
  pub map_to-again :
      (page frame flags old : ℕ) (m : M) (f : F)
      → translate m page ≡ some old
      → (map_to page frame flags m f).0 ≡ some (page_already_mapped old)
