-- ===== src/Shell/Found.antt =====
-- Where `get_bash` of src/lib.rs finds the shell, and what it reads.
use lobster_os_legacy.Prelude.{
  get_elem?-set_self, get_elem?-lt, set, ℕ, ◌+◌, ◌-◌, ◌*◌, ◌/◌, ◌^◌, ◌≤◌, ◌<◌, ◌≡◌, inr, ◌⊎◌, ap,
  some, List, Bool, true, false, Run, ok, ◌>>=◌, Profile, u16_mod, u32_mod, get_elem?, take, length,
}
use lobster_os_legacy.FileSystem.{boot_sector_of, FatBootSector, File, Node, Forest, branch}
use lobster_os_legacy.FileSystem.Directory.{get_name, bytes_eq}
use lobster_os_legacy.FileSystem.Data.{data_start, IsGeometry}
use lobster_os_legacy.Disk.{HbaCommandHeader, HbaCommandTable, AhciPort, DiskAccessError}
use lobster_os_legacy.Disk.Port.{Hardware}
use lobster_os_legacy.Disk.Drive.{IsSetUp, Drive}
use lobster_os_legacy.Disk.Calm.{with_memory}
use lobster_os_legacy.Disk.Serves.{read_sectors-Idle}
use lobster_os_legacy.Shell.{boot_sector_size, file_in, read_from}

-- A node is the first of its siblings with a name; the names up to it are valid.
pub data IsFirst (is_utf8 : List ℕ → Bool) (target : List ℕ) : Forest → Node → Type 0 where
  here :
      (n : Node) (rest : Forest) (name : List ℕ)
      → get_name is_utf8 (file_in n) ≡ ok name
      → bytes_eq name target ≡ true
      → IsFirst is_utf8 target (branch n rest) n
  there :
      (m n : Node) (rest : Forest) (name : List ℕ)
      → get_name is_utf8 (file_in m) ≡ ok name
      → bytes_eq name target ≡ false
      → IsFirst is_utf8 target rest n
      → IsFirst is_utf8 target (branch m rest) n

-- Where the FAT layout puts the file's cluster.
abbrev pub sector_of : FatBootSector → File → ℕ
sector_of bs f = (f.cluster_h * 2 ^ 16 + f.cluster_l - 2) * bs.sectors_per_cluster + data_start bs

-- The boot sector of an image.
abbrev pub boot_sector_in : (ℕ → ℕ → List ℕ) → FatBootSector
boot_sector_in image = boot_sector_of (take boot_sector_size (image 0 1))

-- The first `file_size` bytes of an image from the file's sector on.
abbrev pub bytes_in : (ℕ → ℕ → List ℕ) → FatBootSector → File → List ℕ
bytes_in image bs f =
    take f.file_size (image (sector_of bs f) (f.file_size / bs.bytes_per_sector + 1))

-- The file's numbers fit the integers of the code, and the disk's transfer.
pub record IsReadable (bs : FatBootSector) (f : File) : Type 0 where
  pub geometry : IsGeometry bs
  pub sector_size : bs.bytes_per_sector ≡ 512
  pub low_half : f.cluster_l < u16_mod
  pub in_data : 2 ≤ f.cluster_h * 2 ^ 16 + f.cluster_l
  pub sector_fits : sector_of bs f < u32_mod
  pub one_transfer : f.file_size / bs.bytes_per_sector + 1 ≤ 8192

module _ (p : Profile) (x : Hardware) (with_byte_count : ℕ → Run ℕ) (port : AhciPort) (bound : ℕ)
    (image : ℕ → ℕ → List ℕ) (drive : Drive x port.hba_mem port.port bound image)
    (byte_count-ok : (n : ℕ) → n < 2 ^ 22 → with_byte_count n ≡ ok n) (fuel k : ℕ)
    (enough : bound + 1 < fuel)
    (sectors : (lba count : ℕ) → length (image lba count) ≡ 512 * count) where
  -- The driver, and the states of the ports and the hardware.
  abbrev pub Disk : Type 0
  Disk = List AhciPort × x.D

  abbrev pub read : ℕ → ℕ → Disk → Run ((DiskAccessError ⊎ List ℕ) × Disk)
  read = read_from p x with_byte_count fuel k

  -- Between two reads: the drive's port is set up, with some headers and tables; the drive is idle, and
  -- the heap has room for the contiguous buffers of `room` sectors.
  abbrev pub IsReady : (room : ℕ) → Disk → Type 0
  IsReady room (ports, d) =
      (hs : List HbaCommandHeader) × (ts : List HbaCommandTable) × (get_elem? ports k
        ≡ some (with_memory port hs ts))
      × IsSetUp (with_memory port hs ts)
      × drive.Idle room d

  pub read-image :
      (lba count : ℕ)
      → 1 ≤ count
      → count ≤ 8192
      → lba < 2 ^ 48
      → (room : ℕ) (s : Disk) → IsReady (count + room) s
      → (s' : Disk) × (read lba count s ≡ ok (inr (image lba count), s')) × IsReady room s'
  read-image lba count some_sectors few small room (ports, d) (hs, ts, at, up, idle) =
      let port1 = with_memory port hs ts in
      let (hs', ts', d', e, up', idle') =
        read_sectors-Idle p x with_byte_count port1 bound image drive byte_count-ok up fuel k lba
          count room ports d enough at some_sectors few small idle in
      let port2 = with_memory port hs' ts' in
      (
        (set ports k port2, d'),
        ap (λ r. r >>= λ o. ok (o.0, (o.1, o.2))) e,
        (hs', ts', get_elem?-set_self ports k port2 (get_elem?-lt ports k at), up', idle'),
      )

  -- The sectors of a file.
  abbrev pub sector_count : FatBootSector → File → ℕ
  sector_count bs f = f.file_size / bs.bytes_per_sector + 1
