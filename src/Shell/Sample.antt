-- ===== src/Shell/Sample.antt =====
-- A disk with `/BIN/BASH`, an ELF file, behind the sample controller; the first entry of the root is
-- another file.
use lobster_os_legacy.Prelude.{
  ℕ, ◌*◌, ◌^◌, ◌<◌, ◌≡◌, refl, List, [], ◌∷◌, ◌++◌, ◌==◌, if◌then◌else◌, replicate, length,
  length-replicate, length-append, length-take, Bool, true, take, ok, debug, arith,
}
use lobster_os_legacy.FileSystem.{
  FatBootSector, boot_sector_of, file_of, get_data_addr, Node, node, Forest, leaf, branch,
}
use lobster_os_legacy.FileSystem.Directory.{array_chunks}
use lobster_os_legacy.FileSystem.Tree.{Reads, IsDirectory, last, ended, file, directory}
use lobster_os_legacy.Disk.{AhciPort}
use lobster_os_legacy.Disk.Sample.{controller, port, drive}
use lobster_os_legacy.Shell.{bin, bash, boot_sector_size, read_from}
use lobster_os_legacy.Shell.Found.{IsReadable, IsReady, read-image}
use lobster_os_legacy.Process.Sample

abbrev pub elf_file : List ℕ
elf_file = Sample.file

abbrev pad : ℕ → List ℕ → List ℕ
pad n bytes = take n (bytes ++ replicate n 0)

-- 512 bytes in a sector, one sector in a cluster, 32 reserved sectors, two tables of 100 sectors; the
-- root is at cluster 2.
abbrev boot_bytes : List ℕ
boot_bytes =
    replicate 11 0
    ++ (0 ∷ 2 ∷ 1 ∷ 32 ∷ 0 ∷ 2 ∷ [])
    ++ replicate 19 0
    ++ (100 ∷ 0 ∷ 0 ∷ 0 ∷ [])
    ++ replicate 4 0
    ++ (2 ∷ 0 ∷ 0 ∷ 0 ∷ [])

abbrev entry : List ℕ → ℕ → ℕ → ℕ → List ℕ
entry name attributes cluster size =
    name ++ (attributes ∷ replicate 14 0) ++ (cluster ∷ 0 ∷ size ∷ 0 ∷ 0 ∷ 0 ∷ [])

abbrev other_entry : List ℕ
other_entry = entry (replicate 11 65) 0x20 9 1

abbrev folder_entry : List ℕ
folder_entry = entry bin 0x10 3 0

abbrev pub shell_entry : List ℕ
shell_entry = entry bash 0x20 4 64

abbrev sector : ℕ → List ℕ
sector n =
    if n == 0
    then boot_bytes
    else if n == 232
    then other_entry ++ folder_entry
    else if n == 233
    then shell_entry
    else elf_file

abbrev pub image : ℕ → ℕ → List ℕ
image lba count = pad (512 * count) (sector lba)

pub sectors : (lba count : ℕ) → length (image lba count) ≡ 512 * count
sectors lba count = omega (
  arith,
  length-take (512 * count) (sector lba ++ replicate (512 * count) 0),
  length-append (sector lba) (replicate (512 * count) 0),
  length-replicate {A = ℕ} (512 * count) 0,
)

abbrev pub boot_sector : FatBootSector
unfolding boot_sector_of
boot_sector = boot_sector_of (take boot_sector_size (image 0 1))

abbrev pub is_utf8 : List ℕ → Bool
is_utf8 name = true

abbrev pub shell : Node
unfolding file_of
shell = node (file_of shell_entry) leaf

abbrev pub folder : Node
unfolding file_of
folder = node (file_of folder_entry) (branch shell leaf)

abbrev pub other : Node
unfolding file_of
other = node (file_of other_entry) leaf

abbrev pub root : Forest
unfolding other folder
root = branch other (branch folder leaf)

-- The ports and the hardware at the start.
abbrev pub disk : List AhciPort × (ℕ × ℕ)
disk = ((port ∷ []), (0, 7))

abbrev pub Ready : ℕ → List AhciPort × (ℕ × ℕ) → Type 0
unfolding drive
Ready =
    IsReady debug (controller 0x1F00 image) ok port 2 image (drive image) (λ n h. refl) 4 0
      (omega arith) sectors

reads :
    (lba : ℕ)
    → lba < 2 ^ 48
    → Reads is_utf8
        (read_from debug (controller 0x1F00 image) ok 4 0)
        Ready
        boot_sector
        lba
        1
        (image lba 1)
unfolding drive
reads lba small =
    read-image debug (controller 0x1F00 image) ok port 2 image (drive image) (λ n h. refl) 4 0
      (omega arith) sectors lba 1 (omega arith) (omega arith) small

pub tree :
    IsDirectory is_utf8
      (read_from debug (controller 0x1F00 image) ok 4 0)
      Ready
      boot_sector
      2
      2
      root
      2
unfolding array_chunks file_of get_data_addr boot_sector root other folder shell
tree =
    last {idx = 2} {c = 1} {bytes = image 232 1} (omega arith) (omega arith)
      (reads 232 (omega arith))
      (file (omega arith, omega arith, omega arith, omega arith, refl) refl (omega arith)
        (directory (omega arith, omega arith, omega arith, omega arith, refl) refl refl
          (last {idx = 3} {c = 0} {bytes = image 233 1} (omega arith) (omega arith)
            (reads 233 (omega arith))
            (file (omega arith, omega arith, omega arith, omega arith, refl) refl (omega arith)
              (ended refl)))
          (ended refl)))

pub readable : IsReadable boot_sector (file_of shell_entry)
unfolding boot_sector file_of
readable = record {
  geometry = record {
    sectors_hold_bytes = omega arith;
    root_fits = omega arith;
    start_fits = omega arith;
  };
  sector_size = refl;
  low_half = omega arith;
  in_data = omega arith;
  sector_fits = omega arith;
  one_transfer = omega arith;
}
