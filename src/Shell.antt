-- ===== src/Shell.antt =====
-- How the kernel finds its shell: `get_bash` of src/lib.rs, over the file system of src/fs.rs and the
-- driver of src/disk.rs.
pub mod Found
pub mod Sample
mod Tests
use lobster_os_legacy.Prelude.{
  leb, length, take, ℕ, Option, none, some, List, [], ◌∷◌, Bool, true, false, ◌⊎◌, inl, inr, Run,
  ok, panic, ◌>>=◌, expect, Profile, if◌then◌else◌,
}
use lobster_os_legacy.FileSystem.{
  boot_sector_of, FatBootSector, File, Node, node, Forest, leaf, branch, get_data,
}
use lobster_os_legacy.FileSystem.Directory.{parse_directory, get_name, bytes_eq}
use lobster_os_legacy.Disk.{AhciPort, DiskAccessError}
use lobster_os_legacy.Disk.Port.{Hardware}
use lobster_os_legacy.Disk.Transfer

-- "BIN        "
abbrev pub bin : List ℕ
bin = 66 ∷ 73 ∷ 78 ∷ 32 ∷ 32 ∷ 32 ∷ 32 ∷ 32 ∷ 32 ∷ 32 ∷ 32 ∷ []

-- "BASH       "
abbrev pub bash : List ℕ
bash = 66 ∷ 65 ∷ 83 ∷ 72 ∷ 32 ∷ 32 ∷ 32 ∷ 32 ∷ 32 ∷ 32 ∷ 32 ∷ []

-- `expect` of the result of `get_data`.
abbrev pub contents {ℓ} : {E : Type ℓ} → E ⊎ List ℕ → Run (List ℕ)
contents (inl e) = panic
contents (inr bytes) = ok bytes

abbrev pub file_in : Node → File
file_in (node f children) = f

abbrev pub children_in : Node → Forest
children_in (node f children) = children

module _ (is_utf8 : List ℕ → Bool) where
  -- `find` on the children of a node, by name.
  unfoldable pub find : List ℕ → Forest → Run (Option Node)
  find target leaf = ok none
  find target (branch n rest) = do
    name ← get_name is_utf8 (file_in n)
    let later = find target rest
    if bytes_eq name target then ok (some n) else later

  -- `root` are the children of the tree's root; `S` is the state of the disk and its driver.
  module _ (p : Profile) {E S : Type 0} (read_sectors : ℕ → ℕ → S → Run ((E ⊎ List ℕ) × S))
      (beyond : ℕ → List ℕ) (bs : FatBootSector) where
    unfoldable pub get_bash : Forest → S → Run (List ℕ × S)
    unfolding find
    get_bash root s = do
      folder ← find bin root
      folder' ← expect folder
      shell ← find bash (children_in folder')
      shell' ← expect shell
      (result, s') ← get_data p read_sectors beyond bs (file_in shell') s
      bytes ← contents result
      ok (bytes, s')

-- The size of `FatBootSector`.
abbrev pub boot_sector_size : ℕ
boot_sector_size = 90

module _ (is_utf8 : List ℕ → Bool) (p : Profile) {E S : Type 0}
    (read_sectors : ℕ → ℕ → S → Run ((E ⊎ List ℕ) × S)) (beyond : ℕ → List ℕ) where
  -- The boot sector, and the children of the root from its cluster on; the rest of `init` of fs.rs is
  -- where the two are kept.
  abbrev pub with_boot_sector : ℕ → FatBootSector → S → Run ((FatBootSector × Forest) × S)
  with_boot_sector n bs s = do
    (root, s') ← parse_directory is_utf8 p read_sectors bs n bs.extended_section.root_cluster leaf s
    ok ((bs, root), s')

  abbrev pub with_sector_0 : ℕ → List ℕ → S → Run ((FatBootSector × Forest) × S)
  with_sector_0 n sector_0 s =
      if leb boot_sector_size (length sector_0)
      then with_boot_sector n (boot_sector_of (take boot_sector_size sector_0)) s
      else panic

  -- `n` is the fuel of the walk over the directories.
  unfoldable pub init_file_system : ℕ → S → Run ((FatBootSector × Forest) × S)
  init_file_system n s = do
    (result, s') ← read_sectors 0 1 s
    sector_0 ← contents result
    with_sector_0 n sector_0 s'

  -- The part of `init` of lib.rs from the file system to the shell's bytes.
  unfoldable pub load_shell : ℕ → S → Run (List ℕ × S)
  unfolding init_file_system get_bash
  load_shell n s = do
    (fs, s') ← init_file_system n s
    get_bash is_utf8 p read_sectors beyond fs.0 fs.1 s'

-- The driver as the file system calls it: the state is that of the ports and of the hardware.
abbrev pub read_from :
    (p : Profile) (x : Hardware)
    → (ℕ → Run ℕ)
    → (fuel drive_num : ℕ) → ℕ
    → ℕ
    → List AhciPort × x.D
    → Run ((DiskAccessError ⊎ List ℕ) × (List AhciPort × x.D))
read_from p x with_byte_count fuel drive_num sector count (ports, d) =
    Transfer.read_sectors p x with_byte_count fuel drive_num sector count ports d >>= λ r.
    ok (r.0, (r.1, r.2))
