-- ===== src/Elf/Tests.antt =====
-- A header of 64 bytes, and a segment of two pages over page tables that hold one mapping.
use lobster_os_legacy.Prelude.{
  ℕ, ◌+◌, ◌≤◌, ◌<◌, ◌⊎◌, get_or, ok, debug, ◌≡◌, ◌↔◌, inr, refl, List, [], ◌∷◌, ◌++◌, panic,
  replicate, arith,
}
use lobster_os_legacy.Paging.Flat.{flat}
use lobster_os_legacy.Elf.{
  ElfHeader, ProgramHeader, load, elf_header_of, from_slice, Mapping, allocate_segment,
}
use lobster_os_legacy.Elf.Verify.{IsHeader, Casts, from_slice-IsHeader}
use lobster_os_legacy.Elf.Load.{Bytes, copy_segment}
use lobster_os_legacy.Elf.Copied.{start, copy_segment-Copied}
use lobster_os_legacy.Elf.Segments.{allocate_segment-panic}

abbrev slice : List ℕ
slice = (0x7F ∷ 69 ∷ 76 ∷ 70 ∷ 2 ∷ 1 ∷ []) ++ replicate 12 0 ++ (0x3E ∷ []) ++ replicate 45 0

abbrev header : ElfHeader
header = elf_header_of slice

from_slice-IsHeader_example :
    (((h : ElfHeader) × (from_slice slice ≡ inr h)) ↔ IsHeader slice)
    × ((h : ElfHeader) → from_slice slice ≡ inr h → Casts slice h)
from_slice-IsHeader_example = from_slice-IsHeader slice

-- The slice is a header.
is_header : IsHeader slice
is_header = (refl, refl, refl, refl, refl, refl, refl, refl)

abbrev segment : ProgramHeader
segment = record {
  header_type = load;
  flags = 5;
  offset = 0x1000;
  virt_addr = 0x400010;
  file_size = 0x1234;
  mem_size = 0x1234;
  align = 0x1000;
}

-- The first page can be mapped.
abbrev nothing_mapped : Mapping flat
nothing_mapped = record { tables = 0x400000; allocator = 0x400000; regions = []; frames = [] }

allocate_segment-panic_example : allocate_segment flat debug segment nothing_mapped ≡ panic
allocate_segment-panic_example =
    allocate_segment-panic flat debug segment nothing_mapped refl (omega arith) (omega arith) refl
      refl

-- 100 bytes at the offset 0x20 of a file of 256 bytes.
abbrev small_segment : ProgramHeader
small_segment = record {
  header_type = load;
  flags = 5;
  offset = 0x20;
  virt_addr = 0x400020;
  file_size = 100;
  mem_size = 100;
  align = 0x1000;
}

copy_segment-Copied_example :
    (v' : Bytes) × (copy_segment debug (replicate 256 9) small_segment (λ a. 0) ≡ ok v')
    × ((i : ℕ) → i ≤ 100 → v' (start small_segment + i) ≡ get_or (replicate 256 9) (0x20 + i) 0)
    × ((a : ℕ) → (a < start small_segment) ⊎ (start small_segment + 100 + 1 ≤ a) → v' a ≡ 0)
copy_segment-Copied_example =
    copy_segment-Copied debug (replicate 256 9) small_segment (omega arith) (omega arith)
      (omega arith) (omega arith) (λ a. 0)
