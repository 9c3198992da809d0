-- ===== src/FileSystem/Data.antt =====
-- Where a file's data lies, and what reading it gives.
use native.Mathlib.Nat.{lt-mul-div-succ}
use lobster_os_legacy.Prelude.{
  ℕ, zero, suc, ◌+◌, ◌-◌, ◌*◌, ◌/◌, ◌%◌, ◌^◌, ◌≤◌, ◌<◌, ◌≡◌, ◌⊎◌, inr, refl, List, Run, ok, ◌>>=◌,
  Profile, add_mod-ok, sub_mod-ok, mul_mod-ok, checked_div, u16_mod, u32_mod, take, length, le→leb,
  length-take, bit_or-add', arith,
}
use lobster_os_legacy.FileSystem.{
  FatBootSector, File, fat_size, get_data_addr, root_dir_sectors, first_data_sector, first_sector,
  get_data,
}

-- The sectors of the root directory rounded up, and the first sector behind the tables and the root
-- directory.
abbrev pub root_sectors : FatBootSector → ℕ
root_sectors bs = (bs.root_entry_count * 32 + bs.bytes_per_sector - 1) / bs.bytes_per_sector

abbrev pub data_start : FatBootSector → ℕ
data_start bs = bs.reserved_sector_count + bs.table_count * fat_size bs + root_sectors bs

-- The geometry fits into the integers that the code computes it in.
pub record IsGeometry (bs : FatBootSector) : Type 0 where
  pub sectors_hold_bytes : 1 ≤ bs.bytes_per_sector
  pub root_fits : bs.root_entry_count * 32 + bs.bytes_per_sector < u16_mod
  pub start_fits : data_start bs < u32_mod

pub checked_div-ok : (a b : ℕ) → 1 ≤ b → checked_div a b ≡ ok (a / b)
checked_div-ok a zero h = absurd (omega arith)
checked_div-ok a (suc b) h = refl

module _ (p : Profile) (bs : FatBootSector) (g : IsGeometry bs) where
  root_dir_sectors-ok : root_dir_sectors p bs ≡ ok (root_sectors bs)
  unfolding root_dir_sectors
  root_dir_sectors-ok =
      rw
        (
          mul_mod-ok p u16_mod bs.root_entry_count 32 (omega (arith, g.root_fits)),
          add_mod-ok p u16_mod (bs.root_entry_count * 32) bs.bytes_per_sector g.root_fits,
          sub_mod-ok p u16_mod (bs.root_entry_count * 32 + bs.bytes_per_sector) 1
              (omega (arith, g.sectors_hold_bytes)),
          ◌>>=◌,
        )
        (checked_div-ok _ _ g.sectors_hold_bytes)

  pub first_data_sector-ok : first_data_sector p bs ≡ ok (data_start bs)
  unfolding first_data_sector
  first_data_sector-ok =
      rw
        (
          root_dir_sectors-ok,
          mul_mod-ok p u32_mod bs.table_count (fat_size bs) (omega (arith, g.start_fits)),
          add_mod-ok p u32_mod bs.reserved_sector_count (bs.table_count * fat_size bs)
              (omega (arith, g.start_fits)),
          ◌>>=◌,
        )
        (add_mod-ok p u32_mod _ _ g.start_fits)

  pub first_sector-ok :
      (cluster : ℕ)
      → 2 ≤ cluster
      → (cluster - 2) * bs.sectors_per_cluster + data_start bs < u32_mod
      → first_sector p bs (data_start bs) cluster
        ≡ ok ((cluster - 2) * bs.sectors_per_cluster + data_start bs)
  unfolding first_sector
  first_sector-ok cluster h fits =
      rw
        (
          sub_mod-ok p u32_mod cluster 2 h,
          mul_mod-ok p u32_mod (cluster - 2) bs.sectors_per_cluster (omega arith),
          ◌>>=◌,
        )
        (add_mod-ok p u32_mod _ _ fits)

-- The cluster number that the two halves of an entry spell.
pub get_data_addr_lem :
    (f : File) → f.cluster_l < u16_mod → get_data_addr f ≡ f.cluster_h * 2 ^ 16 + f.cluster_l
unfolding get_data_addr
get_data_addr_lem f h = bit_or-add' 16 f.cluster_h f.cluster_l h

module _ (p : Profile) {E S : Type 0} (read_sectors : ℕ → ℕ → S → Run ((E ⊎ List ℕ) × S))
    (beyond : ℕ → List ℕ) where
  -- For a boot sector whose geometry fits the integers, a file whose cluster is at least 2, whose
  -- first sector is a 32-bit number and whose count of sectors is a 16-bit number, and a disk
  -- that gives as many bytes as were asked for: `get_data` asks for the sectors from the one
  -- where the FAT layout puts the file's cluster, and gives the first `file_size` bytes, all of
  -- which were read.
  pub get_data-reads :
      (bs : FatBootSector) (f : File) (bytes : List ℕ) (s s' : S)
      → IsGeometry bs
      → f.cluster_l < u16_mod
      → 2 ≤ f.cluster_h * 2 ^ 16 + f.cluster_l
      → (f.cluster_h * 2 ^ 16 + f.cluster_l - 2) * bs.sectors_per_cluster + data_start bs < u32_mod
      → f.file_size / bs.bytes_per_sector + 1 < u16_mod
      → read_sectors
          ((f.cluster_h * 2 ^ 16 + f.cluster_l - 2) * bs.sectors_per_cluster + data_start bs)
          (f.file_size / bs.bytes_per_sector + 1)
          s
        ≡ ok (inr bytes, s')
      → length bytes ≡ bs.bytes_per_sector * (f.file_size / bs.bytes_per_sector + 1)
      → (get_data p read_sectors beyond bs f s ≡ ok (inr (take f.file_size bytes), s'))
        × (length (take f.file_size bytes) ≡ f.file_size)
  unfolding get_data
  get_data-reads bs f bytes s s' g low at fits few reads size =
      let count = f.file_size / bs.bytes_per_sector + 1 in
      let enough = lt-mul-div-succ f.file_size g.sectors_hold_bytes in
      let whole : count % u16_mod ≡ count = omega arith in
      (
        rw
            (
              first_data_sector-ok p bs g,
              get_data_addr_lem f low,
              first_sector-ok p bs g (f.cluster_h * 2 ^ 16 + f.cluster_l) at fits,
              checked_div-ok f.file_size bs.bytes_per_sector g.sectors_hold_bytes,
              add_mod-ok p u32_mod (f.file_size / bs.bytes_per_sector) 1 (omega arith),
              ◌>>=◌,
              whole,
              reads,
              le→leb f.file_size (length bytes) (omega arith),
            )
            refl,
        omega (arith, length-take f.file_size bytes),
      )
