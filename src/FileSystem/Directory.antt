-- ===== src/FileSystem/Directory.antt =====
-- `parse_directory` of src/fs.rs.
use lobster_os_legacy.Prelude.{
  ℕ, zero, suc, ◌⊎◌, inl, inr, List, [], ◌∷◌, Bool, true, false, ◌==◌, ltb, ◌&&◌, ◌||◌,
  if◌then◌else◌, Run, ok, panic, out_of_fuel, ◌>>=◌, Profile, add_mod, u32_mod, take, drop, get_or,
  length,
}
use lobster_os_legacy.FileSystem.{
  FatBootSector, File, file_of, Forest, leaf, node, push_back, get_data_addr, first_data_sector,
  first_sector,
}

-- `array_chunks::<32>` leaves out an incomplete last chunk; the first argument is fuel, for which
-- the length of the list is enough.
unfoldable pub array_chunks : ℕ → List ℕ → List (List ℕ)
array_chunks zero bytes = []
array_chunks (suc n) bytes =
    let rest = array_chunks n (drop 32 bytes) in
    if ltb (length bytes) 32 then [] else (take 32 bytes ∷ rest)

abbrev pub dot : List ℕ
dot = 46 ∷ 32 ∷ 32 ∷ 32 ∷ 32 ∷ 32 ∷ 32 ∷ 32 ∷ 32 ∷ 32 ∷ 32 ∷ []

abbrev pub dot_dot : List ℕ
dot_dot = 46 ∷ 46 ∷ 32 ∷ 32 ∷ 32 ∷ 32 ∷ 32 ∷ 32 ∷ 32 ∷ 32 ∷ 32 ∷ []

abbrev pub bytes_eq : List ℕ → List ℕ → Bool
bytes_eq [] [] = true
bytes_eq [] (y ∷ ys) = false
bytes_eq (x ∷ xs) [] = false
bytes_eq (x ∷ xs) (y ∷ ys) = (x == y) && bytes_eq xs ys

-- `is_utf8` is `core::str::from_utf8` of a name, whose code is not part of the repository.
module _ (is_utf8 : List ℕ → Bool) where
  abbrev pub get_name : File → Run (List ℕ)
  get_name f =
      if get_or f.name 0 0 == 0 then ok (47 ∷ []) else if is_utf8 f.name then ok f.name else panic

  abbrev pub is_dot : List ℕ → Bool
  is_dot name = bytes_eq name dot || bytes_eq name dot_dot

  -- The body of the loop over the entries of a cluster: the children so far, and whether the end of
  -- the directory was met. `parse` is the recursive call, from a cluster, on a node without children.
  -- `S` is the state of the disk and its driver, which every read may change.
  module _ {S : Type 0} (parse : ℕ → Forest → S → Run (Forest × S)) where
    abbrev pub children_of : File → S → Run (Forest × S)
    children_of f s =
        if f.attributes.directory == 1 then parse (get_data_addr f) leaf s else ok (leaf, s)

    unfoldable pub parse_entries : List (List ℕ) → Forest → S → Run ((Forest × Bool) × S)
    unfolding file_of get_data_addr push_back
    parse_entries [] parent s = ok ((parent, false), s)
    parse_entries (entry ∷ rest) parent s =
        if get_or entry 0 0 == 0
        then ok ((parent, true), s)
        else if get_or entry 0 0 == 0xE5
        then parse_entries rest parent s
        else if get_or entry 11 0 == 0x0F
        then panic
        else (do
          name ← get_name (file_of entry)
          if is_dot name then parse_entries rest parent s else (do
            (children, s') ← children_of (file_of entry) s
            parse_entries rest (push_back parent (node (file_of entry) children)) s'))

  module _ (p : Profile) {E S : Type 0} (read_sectors : ℕ → ℕ → S → Run ((E ⊎ List ℕ) × S))
      (bs : FatBootSector) where
    -- `expect`
    abbrev pub bytes_or_panic : E ⊎ List ℕ → Run (List ℕ)
    bytes_or_panic (inl e) = panic
    bytes_or_panic (inr bytes) = ok bytes

    abbrev pub next_cluster :
        (ℕ → Forest → S → Run (Forest × S)) → ℕ → (Forest × Bool) × S → Run (Forest × S)
    next_cluster parse cluster_idx ((parent, true), s) = ok (parent, s)
    next_cluster parse cluster_idx ((parent, false), s) = do
      next ← add_mod p u32_mod cluster_idx 1
      parse next parent s

    -- The fuel bounds the clusters that are read one after another and the depth of the tree.
    unfoldable pub parse_directory : ℕ → ℕ → Forest → S → Run (Forest × S)
    unfolding first_data_sector first_sector array_chunks parse_entries
    parse_directory zero cluster_idx parent s = out_of_fuel
    parse_directory (suc n) cluster_idx parent s = do
      data_sector ← first_data_sector p bs
      sector ← first_sector p bs data_sector cluster_idx
      (r, s1) ← read_sectors sector bs.sectors_per_cluster s
      cluster_data ← bytes_or_panic r
      found ←
          parse_entries (parse_directory n) (array_chunks (length cluster_data) cluster_data) parent
            s1
      next_cluster (parse_directory n) cluster_idx found
