-- ===== src/FileSystem/Tests.antt =====
-- A disk whose root holds a deleted entry and a directory, which holds `.` and a file.
use lobster_os_legacy.Prelude.{
  ℕ, ◌+◌, ◌≡◌, ◌⊎◌, inr, refl, List, [], ◌∷◌, ◌++◌, Bool, true, ◌==◌, if◌then◌else◌, Run, ok, debug,
  replicate, arith,
}
use lobster_os_legacy.FileSystem.{
  FatBootSector, File, file_of, Forest, leaf, branch, node, boot_sector_of, get_data_addr,
}
use lobster_os_legacy.FileSystem.Directory.{array_chunks, parse_directory}
use lobster_os_legacy.FileSystem.Data.{IsGeometry}
use lobster_os_legacy.FileSystem.Tree.{
  IsDirectory, last, ended, deleted, dots, file, directory, parse_directory-IsDirectory,
}

-- 512 bytes in a sector, one sector in a cluster, 32 reserved sectors, two tables of 100 sectors.
abbrev boot_sector : FatBootSector
unfolding boot_sector_of
boot_sector = boot_sector_of (
    replicate 11 0
    ++ (0 ∷ 2 ∷ 1 ∷ 32 ∷ 0 ∷ 2 ∷ [])
    ++ replicate 19 0
    ++ (100 ∷ 0 ∷ 0 ∷ 0 ∷ [])
    ++ replicate 4 0
    ++ (2 ∷ 0 ∷ 0 ∷ 0 ∷ [])
    ++ replicate 42 0)

abbrev entry : ℕ → ℕ → ℕ → ℕ → List ℕ
entry name attributes cluster size =
    (name ∷ replicate 10 32)
    ++ (attributes ∷ replicate 14 0)
    ++ (cluster ∷ 0 ∷ size ∷ 0 ∷ 0 ∷ 0 ∷ [])

abbrev gone : List ℕ
gone = entry 0xE5 0 0 0

abbrev folder : List ℕ
folder = entry 68 0x10 3 0

abbrev itself : List ℕ
itself = entry 46 0x10 3 0

abbrev text : List ℕ
text = entry 70 0x20 4 5

abbrev empty : List ℕ
empty = replicate 32 0

abbrev root_bytes : List ℕ
root_bytes = gone ++ folder ++ empty

abbrev folder_bytes : List ℕ
folder_bytes = itself ++ text ++ empty

abbrev text_bytes : List ℕ
text_bytes = replicate 512 1

-- The state counts the sectors that were read.
abbrev read_sectors : ℕ → ℕ → ℕ → Run ((ℕ ⊎ List ℕ) × ℕ)
read_sectors sector count s =
    if sector == 232
    then ok (inr root_bytes, s + count)
    else if sector == 233
    then ok (inr folder_bytes, s + count)
    else ok (inr (replicate 512 count), s + count)

-- 64 sectors can be read.
abbrev Good : ℕ → ℕ → Type 0
Good room s = s + room ≡ 64

abbrev is_utf8 : List ℕ → Bool
is_utf8 name = true

geometry : IsGeometry boot_sector
unfolding boot_sector
geometry = record {
  sectors_hold_bytes = omega arith;
  root_fits = omega arith;
  start_fits = omega arith;
}

abbrev tree : Forest
tree = branch (node (file_of folder) (branch (node (file_of text) leaf) leaf)) leaf

root-IsDirectory : IsDirectory is_utf8 read_sectors Good boot_sector 2 2 tree 2
unfolding array_chunks file_of get_data_addr boot_sector
root-IsDirectory =
    last {c = 1} {bytes = root_bytes} (omega arith) (omega arith)
      (λ room s good. (s + 1, refl, omega (arith, good)))
      (deleted refl (
        directory (omega arith, omega arith, omega arith, omega arith, refl) refl refl
          (last {c = 0} {bytes = folder_bytes} (omega arith) (omega arith)
            (λ room s good. (s + 1, refl, omega (arith, good)))
            (dots (omega arith, omega arith, omega arith, omega arith, refl) refl
              (file (omega arith, omega arith, omega arith, omega arith, refl) refl (omega arith)
                (ended refl))))
          (ended refl)))

parse_directory-IsDirectory_example :
    (s' : ℕ) × (parse_directory is_utf8 debug read_sectors boot_sector 2 2 leaf 5 ≡ ok (tree, s'))
    × (s' + 57 ≡ 64)
parse_directory-IsDirectory_example =
    parse_directory-IsDirectory is_utf8 read_sectors Good boot_sector debug geometry 2 2 2 57 tree 5
      root-IsDirectory refl

abbrev text_file : File
unfolding file_of
text_file = file_of text
