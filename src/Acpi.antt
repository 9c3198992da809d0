-- ===== src/Acpi.antt =====
-- src/acpi.rs: the search for the RSDP and the tables of the RSDT, over a memory of bytes in which a
-- reference is an address. `p` tells whether the build checks for overflow.
pub mod Search
mod Tests
use lobster_os_legacy.Prelude.{
  expect, ℕ, zero, suc, ◌+◌, ◌*◌, ◌/◌, ◌%◌, Option, none, some, List, [], ◌∷◌, Bool, true, false,
  ◌==◌, ◌&&◌, if◌then◌else◌, Run, ok, panic, ◌>>=◌, Profile, add_mod, sub_mod, u32_mod, u64_mod,
  u8_at, u32_at, bytes_at,
}

pub record RsdpDescriptor : Type 0 where
  pub signature : List ℕ
  pub checksum : ℕ
  pub oem_id : List ℕ
  pub revision : ℕ
  pub rsdt_address : ℕ

abbrev pub size_of_rsdp : ℕ
size_of_rsdp = 20

unfoldable pub rsdp_at : (ℕ → ℕ) → ℕ → RsdpDescriptor
rsdp_at mem a = record {
  signature = bytes_at mem 8 a;
  checksum = u8_at mem (a + 8);
  oem_id = bytes_at mem 6 (a + 9);
  revision = u8_at mem (a + 15);
  rsdt_address = u32_at mem (a + 16);
}

pub record SdtHeader : Type 0 where
  pub signature : List ℕ
  pub length : ℕ
  pub revision : ℕ
  pub checksum : ℕ
  pub oem_id : List ℕ
  pub oem_table_id : List ℕ
  pub oem_revision : ℕ
  pub creator_id : ℕ
  pub creator_revision : ℕ

abbrev pub size_of_sdt : ℕ
size_of_sdt = 36

unfoldable pub sdt_at : (ℕ → ℕ) → ℕ → SdtHeader
sdt_at mem a = record {
  signature = bytes_at mem 4 a;
  length = u32_at mem (a + 4);
  revision = u8_at mem (a + 8);
  checksum = u8_at mem (a + 9);
  oem_id = bytes_at mem 6 (a + 10);
  oem_table_id = bytes_at mem 8 (a + 16);
  oem_revision = u32_at mem (a + 24);
  creator_id = u32_at mem (a + 28);
  creator_revision = u32_at mem (a + 32);
}

-- The sum of 20 bytes does not reach 2^32.
abbrev pub sum_bytes : List ℕ → ℕ
sum_bytes [] = 0
sum_bytes (b ∷ bs) = b + sum_bytes bs

unfoldable pub verify_checksum : (ℕ → ℕ) → ℕ → Bool
verify_checksum mem a = sum_bytes (bytes_at mem size_of_rsdp a) % 0x100 == 0

-- b"RSD PTR "
abbrev pub rsd_ptr : List ℕ
rsd_ptr = 82 ∷ 83 ∷ 68 ∷ 32 ∷ 80 ∷ 84 ∷ 82 ∷ 32 ∷ []

abbrev pub same_bytes : List ℕ → List ℕ → Bool
same_bytes [] [] = true
same_bytes [] (y ∷ ys) = false
same_bytes (x ∷ xs) [] = false
same_bytes (x ∷ xs) (y ∷ ys) = (x == y) && same_bytes xs ys

-- `RSDP_REGION` in steps of 0x10.
abbrev pub rsdp_region_start : ℕ
rsdp_region_start = 0x80000

abbrev pub rsdp_region_steps : ℕ
rsdp_region_steps = 0x8000

module _ (p : Profile) (mem : ℕ → ℕ) (physical_offset : ℕ) where
  -- The loop from a physical address on; a descriptor that is found is its address.
  unfoldable pub scan : ℕ → ℕ → Run (Option ℕ)
  unfolding rsdp_at verify_checksum
  scan zero phys_addr = ok none
  scan (suc n) phys_addr = do
    addr ← add_mod p u64_mod physical_offset phys_addr
    (if same_bytes (bytes_at mem 8 addr) rsd_ptr
        then (if verify_checksum mem addr
            then (if (rsdp_at mem addr).revision == 0 then ok (some addr) else panic)
            else scan n (phys_addr + 0x10))
        else scan n (phys_addr + 0x10))

  unfoldable pub find_rsdp : Run (Option ℕ)
  unfolding scan
  find_rsdp = scan rsdp_region_steps rsdp_region_start

  -- The addresses of the tables, from the 32-bit pointers behind the header.
  abbrev pub tables_from : ℕ → ℕ → Run (List ℕ)
  tables_from zero a = ok []
  tables_from (suc n) a = do
    table ← add_mod p u64_mod (u32_at mem a) physical_offset
    rest ← tables_from n (a + 4)
    ok (table ∷ rest)

  -- `RSDT::from_header` at the address of the header.
  unfoldable pub from_header : ℕ → Run (List ℕ)
  unfolding sdt_at
  from_header header = do
    body ← sub_mod p u32_mod (sdt_at mem header).length size_of_sdt
    tables_from (body / 4) (header + size_of_sdt)

  unfoldable pub get_rsdt : ℕ → Run (List ℕ)
  unfolding from_header rsdp_at
  get_rsdt rsdp = do
    header ← add_mod p u64_mod (rsdp_at mem rsdp).rsdt_address physical_offset
    from_header header

  -- The RSDP and the tables of the RSDT, which the source keeps in statics.
  unfoldable pub init : Run (ℕ × List ℕ)
  unfolding find_rsdp get_rsdt
  init = do found ← find_rsdp; rsdp ← expect found; tables ← get_rsdt rsdp; ok (rsdp, tables)
