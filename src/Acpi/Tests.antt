-- ===== src/Acpi/Tests.antt =====
-- A descriptor at the second place of the region.
use lobster_os_legacy.Prelude.{
  ℕ, zero, suc, ◌+◌, ◌-◌, ◌*◌, ◌≡◌, ◌<◌, refl, List, [], ◌∷◌, ltb, if◌then◌else◌, false, get_or,
  some, bytes_at, ok, debug, arith,
}
use lobster_os_legacy.Acpi.{rsdp_at, verify_checksum, find_rsdp, rsdp_region_start}
use lobster_os_legacy.Acpi.Search.{is_rsdp, find_rsdp-first}

abbrev descriptor : List ℕ
descriptor = 82 ∷ 83 ∷ 68 ∷ 32 ∷ 80 ∷ 84 ∷ 82 ∷ 32 ∷ 225 ∷ []

abbrev memory : ℕ → ℕ
memory a = if ltb a 0x80010 then 0 else get_or descriptor (a - 0x80010) 0

find_rsdp-first_example : find_rsdp debug memory 0 ≡ ok (some 0x80010)
unfolding verify_checksum rsdp_at bytes_at
find_rsdp-first_example =
    find_rsdp-first debug memory 0 1 (omega arith) (omega arith) before refl refl
  where
    before : (j : ℕ) → j < 1 → is_rsdp memory (0 + (rsdp_region_start + j * 0x10)) ≡ false
    before zero h = refl
    before (suc j) h = absurd (omega arith)
