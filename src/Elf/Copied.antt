-- ===== src/Elf/Copied.antt =====
-- What the copy of a segment leaves in the memory of the new process.
use lobster_os_legacy.Prelude.{
  ℕ, zero, suc, ◌+◌, ◌-◌, ◌/◌, ◌%◌, ◌≤◌, ◌<◌, ◌≡◌, ◌⊎◌, inl, inr, refl, ap, sym, ◌∙◌, List, [], ◌∷◌,
  true, if◌then◌else◌, le→leb, gt→leb, ok, ◌>>=◌, take, drop, get_or, length, length-take, min,
  Profile, add_mod-ok, sub_mod-ok, u64_mod, arith,
}
use lobster_os_legacy.Elf.{ProgramHeader, align_down}
use lobster_os_legacy.Elf.Load.{Bytes, written, in_range, copy_round, copy_rounds, copy_segment}

get_or-drop : (n i d : ℕ) (xs : List ℕ) → get_or (drop n xs) i d ≡ get_or xs (n + i) d
get_or-drop zero i d xs = let z : 0 + i ≡ i = omega arith in rw z refl
get_or-drop (suc n) i d [] = refl
get_or-drop (suc n) i d (x ∷ xs) =
    let z : suc n + i ≡ suc (n + i) = omega arith in get_or-drop n i d xs ∙ sym (rw z refl)

get_or-take : (n i d : ℕ) (xs : List ℕ) → i < n → get_or (take n xs) i d ≡ get_or xs i d
get_or-take zero i d xs lt = absurd (omega arith)
get_or-take (suc n) i d [] lt = refl
get_or-take (suc n) zero d (x ∷ xs) lt = refl
get_or-take (suc n) (suc i) d (x ∷ xs) lt = get_or-take n i d xs (omega arith)

get_or-past : (i d : ℕ) (xs : List ℕ) → length xs ≤ i → get_or xs i d ≡ d
get_or-past i d [] h = refl
get_or-past zero d (x ∷ xs) h = absurd (omega arith)
get_or-past (suc i) d (x ∷ xs) h = get_or-past i d xs (omega arith)

get_or-default : (i d d' : ℕ) (xs : List ℕ) → i < length xs → get_or xs i d ≡ get_or xs i d'
get_or-default i d d' [] h = absurd (omega arith)
get_or-default zero d d' (x ∷ xs) h = refl
get_or-default (suc i) d d' (x ∷ xs) h = get_or-default i d d' xs (omega arith)

written-inside :
    (a i : ℕ) (bytes : List ℕ) (v : Bytes) → written a bytes v (a + i) ≡ get_or bytes i (v (a + i))
written-inside a i bytes v =
    let same : a + i - a ≡ i = omega arith in
    ap (λ b. if b then get_or bytes (a + i - a) (v (a + i)) else v (a + i))
      (le→leb a (a + i) (omega arith))
    ∙ ap (λ j. get_or bytes j (v (a + i))) same

written-outside :
    (a b : ℕ) (bytes : List ℕ) (v : Bytes)
    → (b < a) ⊎ (a + length bytes ≤ b)
    → written a bytes v b ≡ v b
written-outside a b bytes v (inl below) =
    ap (λ c. if c then get_or bytes (b - a) (v b) else v b) (gt→leb a b below)
written-outside a b bytes v (inr above) =
    ap (λ c. if c then get_or bytes (b - a) (v b) else v b) (le→leb a b (omega arith))
    ∙ get_or-past (b - a) (v b) bytes (omega arith)

in_range-ok : (lo hi n : ℕ) → lo ≤ hi → hi ≤ n → in_range lo hi n ≡ true
in_range-ok lo hi n h h' = rw (le→leb lo hi h, if◌then◌else◌, le→leb hi n h') refl

-- Where the copy of a segment starts.
abbrev pub start : ProgramHeader → ℕ
start h = align_down h.virt_addr + h.offset % 0x1000

module _ (p : Profile) (file : List ℕ) (h : ProgramHeader)
    (in_page : h.offset % 0x1000 + h.file_size + 1 ≤ 0x1000)
    (in_file : h.offset + h.file_size + 1 ≤ length file) (small : length file < u64_mod)
    (low : h.virt_addr + 0x1000 < u64_mod) where
  -- The single round of such a segment.
  abbrev bytes : List ℕ
  bytes = take (h.file_size + 1) (drop h.offset file)

  copy_round-ok :
      (v : Bytes) → copy_round p file h (v, 0) ≡ ok (written (start h) bytes v, h.file_size + 1)
  unfolding copy_round
  copy_round-ok v =
      let size : min (align_down h.virt_addr + 0x1000) (h.file_size + 1) ≡ h.file_size + 1 =
        omega arith in
      let o : h.offset + 0 ≡ h.offset = omega arith in
      let a : h.virt_addr + 0 ≡ h.virt_addr = omega arith in
      let s : h.file_size - 0 ≡ h.file_size = omega arith in
      let n : 0 + (h.file_size + 1) ≡ h.file_size + 1 = omega arith in
      rw
        (
          add_mod-ok p u64_mod h.offset 0 (omega arith),
          ◌>>=◌,
          add_mod-ok p u64_mod h.virt_addr 0 (omega arith),
          o,
          a,
          add_mod-ok p u64_mod (align_down h.virt_addr) 0x1000 (omega arith),
          sub_mod-ok p u64_mod h.file_size 0 (omega arith),
          s,
          add_mod-ok p u64_mod h.file_size 1 (omega arith),
          size,
          add_mod-ok p u64_mod (h.offset % 0x1000) (h.file_size + 1) (omega arith),
          add_mod-ok p u64_mod h.offset (h.file_size + 1) (omega arith),
          add_mod-ok p u64_mod 0 (h.file_size + 1) (omega arith),
          n,
          in_range-ok (h.offset % 0x1000) (h.offset % 0x1000 + (h.file_size + 1)) 0x1000
              (omega arith) (omega arith),
          in_range-ok h.offset (h.offset + (h.file_size + 1)) (length file) (omega arith)
              (omega arith),
        )
        refl

  -- A segment whose data, with one byte more, fits in a page from its place in the page on, and in
  -- the file, is copied without a panic: its bytes and the one after them stand at the segment's
  -- page, as far into it as they are into a page of the file; no other byte of the process changes.
  pub copy_segment-Copied :
      (v : Bytes)
      → (v' : Bytes) × (copy_segment p file h v ≡ ok v')
        × ((i : ℕ) → i ≤ h.file_size → v' (start h + i) ≡ get_or file (h.offset + i) 0)
        × ((a : ℕ) → (a < start h) ⊎ (start h + h.file_size + 1 ≤ a) → v' a ≡ v a)
  unfolding copy_segment copy_rounds
  copy_segment-Copied v =
      let once : h.file_size / 0x1000 + 1 ≡ 1 = omega arith in
      let few = length-take (h.file_size + 1) (drop h.offset file) in
      (
        written (start h) bytes v,
        (rw (once, copy_round-ok v, ◌>>=◌) refl),
        λ i le.
            written-inside (start h) i bytes v
            ∙ get_or-take (h.file_size + 1) i _ (drop h.offset file) (omega arith)
            ∙ get_or-drop h.offset i _ file
            ∙ get_or-default (h.offset + i) _ 0 file (omega arith),
        λ a away.
            written-outside (start h) a bytes v
              (elim away [ inl below ↦ inl below | inr above ↦ inr (omega arith) ]),
      )
