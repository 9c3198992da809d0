-- ===== src/Elf.antt =====
-- src/elf.rs: the checks of an ELF header, and the mapping of a file's segments into the address
-- space of a new process.

mod Segments
pub mod Load
mod Copied
mod Verify
mod Tests
use lobster_os_legacy.Prelude.{
  ℕ, zero, suc, ◌+◌, ◌-◌, ◌*◌, ◌/◌, ◌%◌, Option, none, some, List, [], ◌∷◌, ◌++◌, Bool, true, false,
  ◌==◌, leb, ◌&&◌, ◌⊎◌, inl, inr, if◌then◌else◌, Run, ok, panic, ◌>>=◌, take, drop, get_or, length,
  min, Profile, add_mod, mul_mod, u64_mod,
}
use lobster_os_legacy.Paging.{MapToError, Paging}

pub record ElfHeader : Type 0 where
  pub magic_num : List ℕ
  pub bits : ℕ
  pub endianness : ℕ
  pub elf_header_version : ℕ
  pub os_abi : ℕ
  pub reserved : List ℕ
  pub elf_type : ℕ
  pub instruction_set : ℕ
  pub elf_version : ℕ
  pub program_entry : ℕ
  pub program_header_table : ℕ
  pub section_header_table : ℕ
  pub flags : ℕ
  pub header_size : ℕ
  pub program_entry_size : ℕ
  pub program_entry_count : ℕ
  pub section_entry_size : ℕ
  pub section_entry_count : ℕ
  pub section_names_idx : ℕ

abbrev pub size_of_elf_header : ℕ
size_of_elf_header = 64

-- The little-endian number in the `n` bytes from an offset on.
unfoldable pub field : ℕ → ℕ → List ℕ → ℕ
field zero i b = 0
field (suc n) i b = get_or b i 0 + 0x100 * field n (i + 1) b

abbrev bytes_of : List ℕ → ℕ → ℕ → List ℕ
bytes_of b i n = take n (drop i b)

-- The cast of the bytes to a header.
unfoldable pub elf_header_of : List ℕ → ElfHeader
unfolding field
elf_header_of b = record {
  magic_num = bytes_of b 0 4;
  bits = get_or b 4 0;
  endianness = get_or b 5 0;
  elf_header_version = get_or b 6 0;
  os_abi = get_or b 7 0;
  reserved = bytes_of b 8 8;
  elf_type = field 2 16 b;
  instruction_set = field 2 18 b;
  elf_version = field 4 20 b;
  program_entry = field 8 24 b;
  program_header_table = field 8 32 b;
  section_header_table = field 8 40 b;
  flags = field 4 48 b;
  header_size = field 2 52 b;
  program_entry_size = field 2 54 b;
  program_entry_count = field 2 56 b;
  section_entry_size = field 2 58 b;
  section_entry_count = field 2 60 b;
  section_names_idx = field 2 62 b;
}

pub data ElfVerifyError : Type 0 where
  bad_slice_size : ℕ → ElfVerifyError
  bad_magic_num : ElfVerifyError
  elf32_bit : ElfVerifyError
  bad_endianness : ElfVerifyError
  bad_arch : ElfVerifyError

-- b"\x7FELF"
abbrev pub magic : List ℕ
magic = 0x7F ∷ 69 ∷ 76 ∷ 70 ∷ []

abbrev pub bytes_eq : List ℕ → List ℕ → Bool
bytes_eq [] [] = true
bytes_eq [] (y ∷ ys) = false
bytes_eq (x ∷ xs) [] = false
bytes_eq (x ∷ xs) (y ∷ ys) = (x == y) && bytes_eq xs ys

-- `ElfHeader::from_slice`
unfoldable pub from_slice : List ℕ → ElfVerifyError ⊎ ElfHeader
from_slice bytes =
    let header = elf_header_of bytes in
    if length bytes == size_of_elf_header
    then (if bytes_eq header.magic_num magic
        then (if header.bits == 2
            then (if header.endianness == 1
                then (if header.instruction_set == 0x3E then inr header else inl bad_arch)
                else inl bad_endianness)
            else inl elf32_bit)
        else inl bad_magic_num)
    else inl (bad_slice_size (length bytes))

pub data ProgramHeaderType : Type 0 where
  null : ProgramHeaderType
  load : ProgramHeaderType
  dynamic : ProgramHeaderType
  interp : ProgramHeaderType
  note : ProgramHeaderType
  sh_lib : ProgramHeaderType
  phdr : ProgramHeaderType
  lo_proc : ProgramHeaderType
  hi_proc : ProgramHeaderType

pub record ProgramHeader : Type 0 where
  pub header_type : ProgramHeaderType
  pub flags : ℕ
  pub offset : ℕ
  pub virt_addr : ℕ
  pub file_size : ℕ
  pub mem_size : ℕ
  pub align : ℕ

abbrev pub is_load : ProgramHeaderType → Bool
is_load load = true
is_load t = false

abbrev pub align_down : ℕ → ℕ
align_down a = a - a % 0x1000

abbrev pub contains : List ℕ → ℕ → Bool
contains [] a = false
contains (x ∷ xs) a = if x == a then true else contains xs a

-- PRESENT | WRITABLE | USER_ACCESSIBLE
abbrev pub user_flags : ℕ
user_flags = 7

module _ (x : Paging) where
  open x use {M, F, allocate_frame, map_to}

  -- What the loop over the segments changes: the page tables, the frame allocator, the pages that
  -- were seen and the frames that were given out.
  pub record Mapping : Type 0 where
    pub tables : M
    pub allocator : F
    pub regions : List ℕ
    pub frames : List ℕ

  abbrev pub mapped : Mapping → ℕ → ℕ → Option MapToError × M × F → Run Mapping
  mapped s page_addr frame (some e, m, f) = panic
  mapped s page_addr frame (none, m, f) = ok (record {
    tables = m;
    allocator = f;
    regions = page_addr ∷ s.regions;
    frames = s.frames ++ (frame ∷ []);
  })

  -- `virt_addr` is the segment's, not the address of the page.
  abbrev pub map_frame : Mapping → ℕ → ℕ → Option ℕ × F → Run Mapping
  map_frame s page_addr virt_addr (none, f) = panic
  map_frame s page_addr virt_addr (some frame, f) =
      mapped s page_addr frame (map_to (align_down virt_addr) frame user_flags s.tables f)

  unfoldable pub allocate_page : Mapping → ℕ → ℕ → Run Mapping
  allocate_page s page_addr virt_addr =
      if contains s.regions page_addr
      then ok s
      else map_frame s page_addr virt_addr (allocate_frame s.allocator)

  module _ (p : Profile) where
    -- The pages from the `i`-th on, their addresses in `u64`.
    unfoldable pub allocate_pages : ℕ → ℕ → ℕ → Mapping → Run Mapping
    unfolding allocate_page
    allocate_pages zero i virt_addr s = ok s
    allocate_pages (suc n) i virt_addr s = do
      offset ← mul_mod p u64_mod i 0x1000
      page_addr ← add_mod p u64_mod offset (align_down virt_addr)
      next ← allocate_page s page_addr virt_addr
      allocate_pages n (i + 1) virt_addr next

    -- The pages of one segment.
    unfoldable pub allocate_segment : ProgramHeader → Mapping → Run Mapping
    unfolding allocate_pages
    allocate_segment h s =
        if is_load h.header_type
        then allocate_pages (h.mem_size / 0x1000 + 1) 0 h.virt_addr s
        else ok s
