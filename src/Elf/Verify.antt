-- ===== src/Elf/Verify.antt =====
-- Which byte slices pass for an ELF header.
use mathlib.Core.Path.{subst}
use lobster_os_legacy.Prelude.{
  false, u64_at, u16_at, le_bytes, sym, get_or, [], ◌∷◌, arith, ◌+◌, ◌*◌, ℕ, ◌≡◌, ◌↔◌, ◌⊎◌, inl,
  inr, refl, ◌∙◌, Bool, List, length, true, if◌then◌else◌, ==_iff,
}
use lobster_os_legacy.Elf.{ElfHeader, ElfVerifyError, elf_header_of, from_slice, bytes_eq, magic}

-- The byte at an offset.
abbrev pub byte : List ℕ → ℕ → ℕ
byte bytes i = get_or bytes i 0

-- 64 bytes of an ELF file, by their offsets: the magic number, 64-bit, little-endian, x64.
abbrev pub IsHeader : List ℕ → Type 0
IsHeader bytes =
    (length bytes ≡ 64)
    × (byte bytes 0 ≡ 0x7F)
    × (byte bytes 1 ≡ 0x45)
    × (byte bytes 2 ≡ 0x4C)
    × (byte bytes 3 ≡ 0x46)
    × (byte bytes 4 ≡ 2)
    × (byte bytes 5 ≡ 1)
    × (byte bytes 18 + 0x100 * byte bytes 19 ≡ 0x3E)

magic_iff :
    (bytes : List ℕ)
    → (bytes_eq (elf_header_of bytes).magic_num magic ≡ true) ↔ (
        (byte bytes 0 ≡ 0x7F)
        × (byte bytes 1 ≡ 0x45)
        × (byte bytes 2 ≡ 0x4C)
        × (byte bytes 3 ≡ 0x46))
unfolding elf_header_of
magic_iff [] = (λ e. cc, λ e. absurd (omega (arith, e.0)))
magic_iff (a ∷ []) = (λ e. ground arith, λ e. absurd (omega (arith, e.1)))
magic_iff (a ∷ b ∷ []) = (λ e. ground arith, λ e. absurd (omega (arith, e.2)))
magic_iff (a ∷ b ∷ c ∷ []) = (λ e. ground arith, λ e. absurd (omega (arith, e.3)))
magic_iff (a ∷ b ∷ c ∷ d ∷ rest) = (λ e. ground arith, λ e. ground arith)

-- The fields of a header that the loader goes by: the entry point, and where the program headers are
-- and how many.
abbrev pub Casts : List ℕ → ElfHeader → Type 0
Casts bytes h =
    (h.program_entry ≡ u64_at (byte bytes) 24)
    × (h.program_header_table ≡ u64_at (byte bytes) 32)
    × (h.program_entry_count ≡ u16_at (byte bytes) 56)

elf_header_of-Casts : (bytes : List ℕ) → Casts bytes (elf_header_of bytes)
unfolding elf_header_of le_bytes
elf_header_of-Casts bytes = (refl, refl, refl)

bits_at : (bytes : List ℕ) → (elf_header_of bytes).bits ≡ byte bytes 4
unfolding elf_header_of
bits_at bytes = refl

endianness_at : (bytes : List ℕ) → (elf_header_of bytes).endianness ≡ byte bytes 5
unfolding elf_header_of
endianness_at bytes = refl

instruction_set_at :
    (bytes : List ℕ) → (elf_header_of bytes).instruction_set ≡ byte bytes 18 + 0x100 * byte bytes 19
unfolding elf_header_of
instruction_set_at bytes = omega arith

accepts : (bytes : List ℕ) → IsHeader bytes → from_slice bytes ≡ inr (elf_header_of bytes)
unfolding from_slice
accepts bytes (size, m0, m1, m2, m3, b, e, i) =
    rw
      (
        (==_iff _ _).1 size,
        (magic_iff bytes).1 (m0, m1, m2, m3),
        (==_iff _ 2).1 (bits_at bytes ∙ b),
        (==_iff _ 1).1 (endianness_at bytes ∙ e),
        (==_iff _ 0x3E).1 (instruction_set_at bytes ∙ i),
        if◌then◌else◌,
      )
      refl

passed :
    {h : ElfHeader} (b : Bool) (r : ElfVerifyError ⊎ ElfHeader) (e : ElfVerifyError)
    → (if b then r else inl e) ≡ inr h
    → (b ≡ true) × (r ≡ inr h)
passed true r e q = (refl, q)
passed false r e q = cc

accepted :
    (bytes : List ℕ) (h : ElfHeader)
    → from_slice bytes ≡ inr h
    → IsHeader bytes × (elf_header_of bytes ≡ h)
unfolding from_slice
accepted bytes h q =
    let (size, q1) = passed _ _ _ q in
    let (m, q2) = passed _ _ _ q1 in
    let (b, q3) = passed _ _ _ q2 in
    let (e, q4) = passed _ _ _ q3 in
    let (i, q5) = passed _ _ _ q4 in
    let (m0, m1, m2, m3) = (magic_iff bytes).0 m in
    (
      (
        (==_iff _ _).0 size,
        m0,
        m1,
        m2,
        m3,
        sym (bits_at bytes) ∙ (==_iff _ 2).0 b,
        sym (endianness_at bytes) ∙ (==_iff _ 1).0 e,
        sym (instruction_set_at bytes) ∙ (==_iff _ 0x3E).0 i,
      ),
      cc q5,
    )

-- `from_slice` accepts exactly the slices of 64 bytes that begin with the bytes 7F 45 4C 46, 2, 1 and
-- have 3E at the offset 18 as a little-endian number of 16 bits; and the header that it gives has its
-- entry point from the 8 bytes at the offset 24, the place of the program headers from the 8 bytes at
-- 32, and their count from the 2 bytes at 56, all little-endian.
pub from_slice-IsHeader :
    (bytes : List ℕ)
    → (((h : ElfHeader) × (from_slice bytes ≡ inr h)) ↔ IsHeader bytes)
      × ((h : ElfHeader) → from_slice bytes ≡ inr h → Casts bytes h)
from_slice-IsHeader bytes = (
  (λ (h, e). (accepted bytes h e).0, λ is. (elf_header_of bytes, accepts bytes is)),
  λ h e. subst (Casts bytes) (accepted bytes h e).1 (elf_header_of-Casts bytes),
)
