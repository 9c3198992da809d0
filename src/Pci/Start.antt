-- ===== src/Pci/Start.antt =====
-- `get_mcfg` and `init` of src/pci.rs, from the tables that src/acpi.rs found.
use lobster_os_legacy.Prelude.{
  ℕ, Option, none, some, List, [], ◌∷◌, Bool, if◌then◌else◌, Run, ok, panic, ◌>>=◌, expect, Profile,
  bytes_at,
}
use lobster_os_legacy.Acpi
use lobster_os_legacy.Acpi.{same_bytes}
use lobster_os_legacy.Pci.{enumerate_bus}
use lobster_os_legacy.Pci.Config.{McfgEntry, from_header}

-- "MCFG"
abbrev pub mcfg : List ℕ
mcfg = 77 ∷ 67 ∷ 70 ∷ 71 ∷ []

-- `is_utf8` is `core::str::from_utf8` of a signature, which `get_signature_str` expects.
module _ (p : Profile) (mem : ℕ → ℕ) (phys_offset : ℕ) (is_utf8 : List ℕ → Bool) where
  -- The first of the tables, by the addresses of their headers, with the signature of the MCFG.
  unfoldable pub find_mcfg : List ℕ → Run (Option ℕ)
  find_mcfg [] = ok none
  find_mcfg (table ∷ tables) =
      let signature = bytes_at mem 4 table in
      let later = find_mcfg tables in
      if is_utf8 signature
      then (if same_bytes signature mcfg then ok (some table) else later)
      else panic

  unfoldable pub get_mcfg : List ℕ → Run (List McfgEntry)
  unfolding find_mcfg
  get_mcfg tables = do found ← find_mcfg tables; header ← expect found; from_header p mem header

  -- The entries of the MCFG and the devices on its buses, which the source keeps in statics.
  unfoldable pub init : List ℕ → Run (List McfgEntry × List ℕ)
  unfolding get_mcfg
  init tables = do
    entries ← get_mcfg tables
    devices ← enumerate_bus p mem phys_offset entries
    ok (entries, devices)

  -- The start-up of both: the devices.
  unfoldable pub devices_found : Run (List ℕ)
  unfolding init
  devices_found = do acpi ← Acpi.init p mem phys_offset; pci ← init acpi.1; ok pci.1
