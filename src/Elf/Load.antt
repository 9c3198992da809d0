-- ===== src/Elf/Load.antt =====
-- `map_elf_file_to_process` of src/elf.rs: the loop over the segments, with the copy of their data
-- into the memory of the new process, whose page tables are the active ones.
use lobster_os_legacy.Prelude.{
  ℕ, zero, suc, ◌+◌, ◌-◌, ◌/◌, ◌%◌, Option, none, some, List, [], ◌∷◌, Bool, false, ◌==◌, leb, ltb,
  ◌⊎◌, inl, inr, if◌then◌else◌, Run, ok, panic, ◌>>=◌, take, drop, get_or, length, min, Profile,
  add_mod, sub_mod, u64_mod,
}
use lobster_os_legacy.Paging.{Paging}
use lobster_os_legacy.Elf.{
  ElfHeader, ElfVerifyError, from_slice, size_of_elf_header, field, ProgramHeaderType, null, load,
  dynamic, interp, note, sh_lib, phdr, lo_proc, hi_proc, ProgramHeader, is_load, align_down,
  Mapping, allocate_segment,
}

abbrev size_of_program_header : ℕ
size_of_program_header = 56

-- The number of the type; another number is no value of the enum, which the source rules out.
abbrev pub header_type_of : ℕ → Option ProgramHeaderType
header_type_of n =
    if n == 0
    then some null
    else if n == 1
    then some load
    else if n == 2
    then some dynamic
    else if n == 3
    then some interp
    else if n == 4
    then some note
    else if n == 5
    then some sh_lib
    else if n == 6
    then some phdr
    else if n == 0x70000000
    then some lo_proc
    else if n == 0x7FFFFFFF
    then some hi_proc
    else none

-- The bytes of one entry of the program header table; those of an unknown type count as not `Load`.
unfoldable pub program_header_of : List ℕ → ProgramHeader
unfolding field
program_header_of b = record {
  header_type = elim (header_type_of (field 4 0 b)) [ some t ↦ t | none ↦ null ];
  flags = field 4 4 b;
  offset = field 8 8 b;
  virt_addr = field 8 16 b;
  file_size = field 8 32 b;
  mem_size = field 8 40 b;
  align = field 8 48 b;
}

-- `slice_from_raw_parts` of the headers from an offset on.
unfoldable pub program_headers : ℕ → List ℕ → List ProgramHeader
unfolding program_header_of
program_headers zero b = []
program_headers (suc n) b = program_header_of b ∷ program_headers n (drop size_of_program_header b)

-- The bytes of the process at its virtual addresses.
abbrev pub Bytes : Type 0
Bytes = ℕ → ℕ

-- `copy_from_slice` to the bytes from an address on.
abbrev pub written : ℕ → List ℕ → Bytes → Bytes
written a bytes v b = if leb a b then get_or bytes (b - a) (v b) else v b

-- A range of a slice of `n` elements; out of bounds, or with its ends exchanged, it panics.
abbrev pub in_range : ℕ → ℕ → ℕ → Bool
in_range lo hi n = if leb lo hi then leb hi n else false

module _ (p : Profile) where
  -- One round of the copy: the state is the memory and `working_offset`.
  unfoldable pub copy_round : List ℕ → ProgramHeader → Bytes × ℕ → Run (Bytes × ℕ)
  copy_round file h (v, working_offset) = do
    lower_bound ← add_mod p u64_mod h.offset working_offset
    at ← add_mod p u64_mod h.virt_addr working_offset
    let page_addr = align_down at
    page_end ← add_mod p u64_mod page_addr 0x1000
    left ← sub_mod p u64_mod h.file_size working_offset
    left' ← add_mod p u64_mod left 1
    let write_size = min page_end left'
    let lower_bound_offset = lower_bound % 0x1000
    page_hi ← add_mod p u64_mod lower_bound_offset write_size
    file_hi ← add_mod p u64_mod lower_bound write_size
    next ← add_mod p u64_mod working_offset write_size
    let to = page_addr + lower_bound_offset
    let bytes = take write_size (drop lower_bound file)
    if in_range lower_bound_offset page_hi 0x1000
        then (if in_range lower_bound file_hi (length file)
            then ok (written to bytes v, next)
            else panic)
        else panic

  unfoldable pub copy_rounds : ℕ → List ℕ → ProgramHeader → Bytes × ℕ → Run (Bytes × ℕ)
  unfolding copy_round
  copy_rounds zero file h s = ok s
  copy_rounds (suc n) file h s = do s' ← copy_round file h s; copy_rounds n file h s'

  unfoldable pub copy_segment : List ℕ → ProgramHeader → Bytes → Run Bytes
  unfolding copy_rounds
  copy_segment file h v = do s ← copy_rounds (h.file_size / 0x1000 + 1) file h (v, 0); ok s.0

  module _ (x : Paging) where
    open x use {M, F}

    unfoldable pub load_segment :
        List ℕ → ProgramHeader → Mapping x × Bytes → Run (Mapping x × Bytes)
    load_segment file h (s, v) =
        if is_load h.header_type
        then (do s' ← allocate_segment x p h s; v' ← copy_segment file h v; ok (s', v'))
        else ok (s, v)

    unfoldable pub load_segments :
        List ℕ → List ProgramHeader → Mapping x × Bytes → Run (Mapping x × Bytes)
    unfolding load_segment
    load_segments file [] s = ok s
    load_segments file (h ∷ hs) s = do s' ← load_segment file h s; load_segments file hs s'

    -- The frames, the entry point, and what became of the page tables, the allocator and the memory.
    abbrev pub loaded :
        List ℕ → M → F → Bytes → ElfVerifyError ⊎ ElfHeader → Run (Mapping x × Bytes × ℕ)
    loaded file m f v (inl e) = panic
    loaded file m f v (inr elf_header) =
        if ltb elf_header.program_header_table (length file)
        then (do
          let headers =
              program_headers elf_header.program_entry_count
                (drop elf_header.program_header_table file)
          s ←
              load_segments file headers
                (record { tables = m; allocator = f; regions = []; frames = [] }, v)
          ok (s.0, s.1, elf_header.program_entry))
        else panic

    unfoldable pub map_elf_file_to_process : List ℕ → M → F → Bytes → Run (Mapping x × Bytes × ℕ)
    unfolding load_segments program_headers
    map_elf_file_to_process file m f v =
        if leb size_of_elf_header (length file)
        then loaded file m f v (from_slice (take size_of_elf_header file))
        else panic
