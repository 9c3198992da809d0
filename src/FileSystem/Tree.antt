-- ===== src/FileSystem/Tree.antt =====
-- The directory trees on a disk, and that `parse_directory` reads each of them to its end.
use mathlib.Core.Path.{subst}
use lobster_os_legacy.Prelude.{
  ℕ, suc, ◌+◌, ◌-◌, ◌*◌, ◌≤◌, ◌<◌, ◌≡◌, ◌≢◌, ◌⊎◌, inr, refl, sym, ap, ◌∙◌, List, [], ◌∷◌, Bool,
  true, false, if◌then◌else◌, Run, ok, ◌>>=◌, Profile, add_mod-ok, u32_mod, get_or, length, ≢→==,
  ==_iff, arith,
}
use lobster_os_legacy.FileSystem.{
  FatBootSector, file_of, Forest, leaf, branch, Node, node, push_back, get_data_addr,
}
use lobster_os_legacy.FileSystem.Directory.{
  array_chunks, is_dot, children_of, parse_entries, next_cluster, parse_directory,
}
use lobster_os_legacy.FileSystem.Data.{
  IsGeometry, data_start, first_data_sector-ok, first_sector-ok,
}

-- Behind the children so far, those of a further part.
abbrev pub join : Forest → Forest → Forest
join leaf g = g
join (branch n f) g = branch n (join f g)

join-leaf : (f : Forest) → join f leaf ≡ f
join-leaf leaf = refl
join-leaf (branch n f) = ap (branch n) (join-leaf f)

join-push_back : (f : Forest) (n : Node) (g : Forest) → join (push_back f n) g ≡ join f (branch n g)
unfolding push_back
join-push_back leaf n g = refl
join-push_back (branch m f) n g = ap (branch m) (join-push_back f n g)

join_assoc : (f g h : Forest) → join (join f g) h ≡ join f (join g h)
join_assoc leaf g h = refl
join_assoc (branch n f) g h = ap (branch n) (join_assoc f g h)

module _ (is_utf8 : List ℕ → Bool) {E S : Type 0}
    (read_sectors : ℕ → ℕ → S → Run ((E ⊎ List ℕ) × S)) (Good : ℕ → S → Type 0)
    (bs : FatBootSector) where
  -- The sectors from `lba` on hold some bytes: a read from a state that is good for `count` sectors and
  -- more gives them, and leaves a state that is good for the rest.
  abbrev pub Reads : ℕ → ℕ → List ℕ → Type 0
  Reads lba count bytes =
      (room : ℕ) (s : S)
      → Good (count + room) s
      → (s' : S) × (read_sectors lba count s ≡ ok (inr bytes, s')) × Good room s'

  abbrev pub sector_of : ℕ → ℕ
  sector_of idx = (idx - 2) * bs.sectors_per_cluster + data_start bs

  -- An entry in use that is no part of a long name and whose name is text.
  abbrev pub IsShort : List ℕ → Type 0
  IsShort e =
      (get_or e 0 0 ≢ 0)
      × (get_or e 0 0 ≢ 0xE5)
      × (get_or e 11 0 ≢ 0x0F)
      × (get_or (file_of e).name 0 0 ≢ 0)
      × (is_utf8 (file_of e).name ≡ true)

  mutual
    -- `IsDirectory n idx f c`: the directory that begins at the cluster `idx` holds the tree `f` in `c`
    -- sectors, and no chain of a directory's clusters and of subdirectories in it is longer than
    -- `n`.
    pub data IsDirectory : ℕ → ℕ → Forest → ℕ → Type 0 where
      last :
          {n idx c : ℕ} {bytes : List ℕ} {f : Forest}
          → 2 ≤ idx
          → sector_of idx < u32_mod
          → Reads (sector_of idx) bs.sectors_per_cluster bytes
          → Holds n (array_chunks (length bytes) bytes) f true c
          → IsDirectory (suc n) idx f (bs.sectors_per_cluster + c)
      continued :
          {n idx c c' : ℕ} {bytes : List ℕ} {f g : Forest}
          → 2 ≤ idx
          → sector_of idx < u32_mod
          → Reads (sector_of idx) bs.sectors_per_cluster bytes
          → Holds n (array_chunks (length bytes) bytes) f false c
          → idx + 1 < u32_mod
          → IsDirectory n (idx + 1) g c'
          → IsDirectory (suc n) idx (join f g) (bs.sectors_per_cluster + c + c')

    -- The entries of a cluster, up to the mark of the end if there is one.
    pub data Holds : ℕ → List (List ℕ) → Forest → Bool → ℕ → Type 0 where
      full : {n : ℕ} → Holds n [] leaf false 0
      ended :
          {n : ℕ} {e : List ℕ} {rest : List (List ℕ)}
          → get_or e 0 0 ≡ 0
          → Holds n (e ∷ rest) leaf true 0
      deleted :
          {n c : ℕ} {e : List ℕ} {rest : List (List ℕ)} {f : Forest} {b : Bool}
          → get_or e 0 0 ≡ 0xE5
          → Holds n rest f b c
          → Holds n (e ∷ rest) f b c
      dots :
          {n c : ℕ} {e : List ℕ} {rest : List (List ℕ)} {f : Forest} {b : Bool}
          → IsShort e
          → is_dot is_utf8 (file_of e).name ≡ true
          → Holds n rest f b c
          → Holds n (e ∷ rest) f b c
      file :
          {n c : ℕ} {e : List ℕ} {rest : List (List ℕ)} {f : Forest} {b : Bool}
          → IsShort e
          → is_dot is_utf8 (file_of e).name ≡ false
          → (file_of e).attributes.directory ≢ 1
          → Holds n rest f b c
          → Holds n (e ∷ rest) (branch (node (file_of e) leaf) f) b c
      directory :
          {n c c' : ℕ} {e : List ℕ} {rest : List (List ℕ)} {f g : Forest} {b : Bool}
          → IsShort e
          → is_dot is_utf8 (file_of e).name ≡ false
          → (file_of e).attributes.directory ≡ 1
          → IsDirectory n (get_data_addr (file_of e)) g c
          → Holds n rest f b c'
          → Holds n (e ∷ rest) (branch (node (file_of e) g) f) b (c + c')

  module _ (p : Profile) (g : IsGeometry bs) where
    abbrev walk : ℕ → ℕ → Forest → S → Run (Forest × S)
    walk n = parse_directory is_utf8 p read_sectors bs n

    -- An entry that is looked at: `.` and `..` are skipped, the others are pushed.
    short_step :
        (parse : ℕ → Forest → S → Run (Forest × S)) (e : List ℕ) (rest : List (List ℕ))
        (parent : Forest) (s : S)
        → IsShort e
        → parse_entries is_utf8 parse (e ∷ rest) parent s ≡ (
            if is_dot is_utf8 (file_of e).name
            then parse_entries is_utf8 parse rest parent s
            else (children_of is_utf8 parse (file_of e) s >>= λ o.
                parse_entries is_utf8 parse rest (push_back parent (node (file_of e) o.0)) o.1))
    unfolding parse_entries
    short_step parse e rest parent s (used, kept, short, named, text) =
        rw
          (
            ≢→== (get_or e 0 0) 0 used,
            ≢→== (get_or e 0 0) 0xE5 kept,
            ≢→== (get_or e 11 0) 0x0F short,
            ≢→== (get_or (file_of e).name 0 0) 0 named,
            text,
            if◌then◌else◌,
            ◌>>=◌,
          )
          refl

    -- A run ends with a value and a good state.
    abbrev pub Ends : {A : Type 0} → ℕ → A → Run (A × S) → Type 0
    Ends room a r = (s' : S) × (r ≡ ok (a, s')) × Good room s'

    nothing-Good : (room : ℕ) (s : S) → Good (0 + room) s → Good room s
    nothing-Good room s good =
        let same : 0 + room ≡ room = omega arith in subst (λ r. Good r s) same good

    mutual
      unfolding parse_directory parse_entries

      walk-IsDirectory :
          {n idx c : ℕ} {f : Forest} (parent : Forest) (room : ℕ) (s : S)
          → IsDirectory n idx f c
          → Good (c + room) s
          → Ends room (join parent f) (walk n idx parent s)
      walk-IsDirectory parent room s (last {c} two fits reads holds) good =
          let more : bs.sectors_per_cluster + c + room ≡ bs.sectors_per_cluster + (c + room) =
            omega arith in
          let (s1, e1, good1) = reads (c + room) s (subst (λ r. Good r s) more good) in
          let (s2, e2, good2) = entries-Holds parent room s1 holds good1 in
          (
            s2,
            rw
                (
                  first_data_sector-ok p bs g,
                  first_sector-ok p bs g _ two fits,
                  e1,
                  e2,
                  ◌>>=◌,
                  next_cluster,
                )
                refl,
            good2,
          )
      walk-IsDirectory parent room s
            (continued {idx} {c} {c' = c''} {f} two fits reads holds fits' more) good =
          let around : bs.sectors_per_cluster + c + c'' + room
              ≡ bs.sectors_per_cluster + (c + (c'' + room)) =
            omega arith in
          let (s1, e1, good1) = reads (c + (c'' + room)) s (subst (λ r. Good r s) around good) in
          let (s2, e2, good2) = entries-Holds parent (c'' + room) s1 holds good1 in
          let (s3, e3, good3) = walk-IsDirectory (join parent f) room s2 more good2 in
          (
            s3,
            rw
                (
                  first_data_sector-ok p bs g,
                  first_sector-ok p bs g _ two fits,
                  e1,
                  e2,
                  ◌>>=◌,
                  next_cluster,
                  add_mod-ok p u32_mod idx 1 fits',
                )
                (e3 ∙ ap (λ q. ok (q, s3)) (join_assoc parent f _)),
            good3,
          )

      entries-Holds :
          {n c : ℕ} {es : List (List ℕ)} {f : Forest} {b : Bool} (parent : Forest) (room : ℕ)
          (s : S)
          → Holds n es f b c
          → Good (c + room) s
          → Ends room (join parent f, b) (parse_entries is_utf8 (walk n) es parent s)
      entries-Holds parent room s full good =
          (s, ap (λ q. ok ((q, false), s)) (sym (join-leaf parent)), nothing-Good room s good)
      entries-Holds parent room s (ended e) good = (
        s,
        rw ((==_iff _ 0).1 e, if◌then◌else◌) (ap (λ q. ok ((q, true), s)) (sym (join-leaf parent))),
        nothing-Good room s good,
      )
      entries-Holds parent room s (deleted {e = e'} e h) good =
          let used : get_or e' 0 0 ≢ 0 = λ z. absurd (omega arith) in
          let (s1, e1, good1) = entries-Holds parent room s h good in
          (s1, rw (≢→== _ 0 used, (==_iff _ 0xE5).1 e, if◌then◌else◌) e1, good1)
      entries-Holds parent room s (dots {n} {e} {rest} t d h) good =
          let (s1, e1, good1) = entries-Holds parent room s h good in
          (s1, short_step (walk n) e rest parent s t ∙ rw (d, if◌then◌else◌) e1, good1)
      entries-Holds parent room s (file {n} {e} {rest} {f} {b} t d k h) good =
          let (s1, e1, good1) =
            entries-Holds (push_back parent (node (file_of e) leaf)) room s h good in
          (
            s1,
            short_step (walk n) e rest parent s t
                ∙ rw (d, ≢→== _ 1 k, if◌then◌else◌, ◌>>=◌)
                    (e1
                      ∙ ap (λ q. ok ((q, b), s1))
                          (join-push_back parent (node (file_of e) leaf) f)),
            good1,
          )
      entries-Holds parent room s
            (directory {n} {c} {c' = c''} {e} {rest} {f} {g = sub_tree} {b} t d k sub h) good =
          let around : c + c'' + room ≡ c + (c'' + room) = omega arith in
          let (s1, e1, good1) =
            walk-IsDirectory leaf (c'' + room) s sub (subst (λ r. Good r s) around good) in
          let (s2, e2, good2) =
            entries-Holds (push_back parent (node (file_of e) sub_tree)) room s1 h good1 in
          (
            s2,
            short_step (walk n) e rest parent s t
                ∙ rw (d, (==_iff _ 1).1 k, e1, if◌then◌else◌, ◌>>=◌)
                    (e2
                      ∙ ap (λ q. ok ((q, b), s2))
                          (join-push_back parent (node (file_of e) sub_tree) f)),
            good2,
          )

    -- For a boot sector whose geometry fits the integers, and a directory on the disk that holds
    -- the tree `f` in `c` sectors, with no long names, every name text, its clusters one after another
    -- up to one with an end mark, and no chain of clusters and subdirectories longer than `n`:
    -- `parse_directory` on fuel `n`, from a node without children and a state that is good for `c`
    -- sectors and more, ends without a panic in exactly the tree `f`, without the deleted entries and
    -- the entries `.` and `..`, and in a state that is good for the rest.
    pub parse_directory-IsDirectory :
        (n idx c room : ℕ) (f : Forest) (s : S)
        → IsDirectory n idx f c
        → Good (c + room) s
        → (s' : S) × (parse_directory is_utf8 p read_sectors bs n idx leaf s ≡ ok (f, s'))
          × Good room s'
    parse_directory-IsDirectory n idx c room f s d good = walk-IsDirectory leaf room s d good
