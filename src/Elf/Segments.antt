-- ===== src/Elf/Segments.antt =====
-- What the mapping of a segment's pages comes to.
use native.Mathlib.Decide.{dec_lt}
use lobster_os_legacy.Prelude.{
  ℕ, suc, ◌+◌, ◌-◌, ◌/◌, ◌≤◌, ◌≡◌, ◌⊎◌, inl, inr, refl, ap, ◌∙◌, Option, none, some, ◌∷◌, true,
  false, if◌then◌else◌, Run, ok, panic, ◌>>=◌, ≢→==, arith, ◌<◌, ◌%◌, Profile, debug, release,
  add_mod, mul_mod, add_mod-ok, mul_mod-ok, u64_mod,
}
use lobster_os_legacy.Paging.{MapToError, Paging}
use lobster_os_legacy.Elf.{
  ProgramHeader, is_load, align_down, contains, user_flags, Mapping, mapped, map_frame,
  allocate_page, allocate_pages, allocate_segment,
}

-- A sum of `u64` panics or is the exact one modulo 2^64.
add_u64-either :
    (p : Profile) (a b : ℕ)
    → (add_mod p u64_mod a b ≡ panic) ⊎ (add_mod p u64_mod a b ≡ ok ((a + b) % u64_mod))
add_u64-either p a b = elim (dec_lt (a + b) u64_mod) [
  | yes lt ↦
      let same : a + b ≡ (a + b) % u64_mod = omega arith in
      inr (add_mod-ok p u64_mod a b lt ∙ ap ok same)
  | no ge ↦ beyond p (omega arith)
]
  where
    beyond :
        (p : Profile)
        → u64_mod ≤ a + b
        → (add_mod p u64_mod a b ≡ panic) ⊎ (add_mod p u64_mod a b ≡ ok ((a + b) % u64_mod))
    beyond debug h = inl (ground arith)
    beyond release h = inr (ground arith)

module _ (x : Paging) where
  open x use {M, F, allocate_frame, map_to, translate, map_to-translate, map_to-again}

  mapped-panic :
      (s : Mapping x) (page frame : ℕ) (e : MapToError) (r : Option MapToError × M × F)
      → r.0 ≡ some e
      → mapped x s page frame r ≡ panic
  mapped-panic s page frame e (none, m, f) h = cc
  mapped-panic s page frame e (some e', m, f) h = refl

  -- A frame is never mapped to a page that has one.
  map_frame-again :
      (s : Mapping x) (page v old : ℕ) (o : Option ℕ × F)
      → translate s.tables (align_down v) ≡ some old
      → map_frame x s page v o ≡ panic
  map_frame-again s page v old (none, f) h = refl
  map_frame-again s page v old (some frame, f) h =
      mapped-panic s page frame _ _ (map_to-again (align_down v) frame user_flags old s.tables f h)

  abbrev Once : Mapping x → ℕ → ℕ → Run (Mapping x) → Type 0
  Once s page v r =
      (r ≡ panic)
      ⊎ ((s' : Mapping x) × (r ≡ ok s')
          × (s'.regions ≡ page ∷ s.regions)
          × (frame : ℕ) × (translate s'.tables (align_down v) ≡ some frame))

  mapped-Once :
      (s : Mapping x) (page v frame : ℕ) (r : Option MapToError × M × F)
      → (r.0 ≡ none → translate r.1 (align_down v) ≡ some frame)
      → Once s page v (mapped x s page frame r)
  mapped-Once s page v frame (none, m, f) h = inr (_, refl, refl, frame, h refl)
  mapped-Once s page v frame (some e, m, f) h = inl refl

  map_frame-Once :
      (s : Mapping x) (page v : ℕ) (o : Option ℕ × F) → Once s page v (map_frame x s page v o)
  map_frame-Once s page v (none, f) = inl refl
  map_frame-Once s page v (some frame, f) =
      mapped-Once s page v frame _ (map_to-translate (align_down v) frame user_flags s.tables f)

  allocate_page-new :
      (s : Mapping x) (page v : ℕ)
      → contains s.regions page ≡ false
      → allocate_page x s page v ≡ map_frame x s page v (allocate_frame s.allocator)
  unfolding allocate_page
  allocate_page-new s page v h = rw (h, if◌then◌else◌) refl

  module _ (p : Profile) where
    -- The address of the second page.
    abbrev pub next_page : ℕ → ℕ
    next_page v = (0x1000 + align_down v) % u64_mod

    -- A round whose page has an address in `u64`.
    round :
        (n i v offset page : ℕ) (s : Mapping x)
        → mul_mod p u64_mod i 0x1000 ≡ ok offset
        → add_mod p u64_mod offset (align_down v) ≡ ok page
        → allocate_pages x p (suc n) i v s
          ≡ (allocate_page x s page v >>= allocate_pages x p n (i + 1) v)
    unfolding allocate_pages
    round n i v offset page s at address =
        ap
          (λ r. r >>= λ o. add_mod p u64_mod o (align_down v) >>= λ a.
            allocate_page x s a v >>= allocate_pages x p n (i + 1) v)
          at
        ∙ ap (λ r. r >>= λ a. allocate_page x s a v >>= allocate_pages x p n (i + 1) v) address

    -- A round whose page has none.
    bad_round :
        (n i v offset : ℕ) (s : Mapping x)
        → mul_mod p u64_mod i 0x1000 ≡ ok offset
        → add_mod p u64_mod offset (align_down v) ≡ panic
        → allocate_pages x p (suc n) i v s ≡ panic
    unfolding allocate_pages
    bad_round n i v offset s at address =
        ap
          (λ r. r >>= λ o. add_mod p u64_mod o (align_down v) >>= λ a.
            allocate_page x s a v >>= allocate_pages x p n (i + 1) v)
          at
        ∙ ap (λ r. r >>= λ a. allocate_page x s a v >>= allocate_pages x p n (i + 1) v) address

    -- Once the first page has a frame, the second one has no chance.
    second_page :
        (n v frame : ℕ) (s : Mapping x)
        → translate s.tables (align_down v) ≡ some frame
        → contains s.regions (next_page v) ≡ false
        → allocate_pages x p (suc n) 1 v s ≡ panic
    second_page n v frame s at new =
        let one = mul_mod-ok p u64_mod 1 0x1000 (omega arith) in
        elim (add_u64-either p 0x1000 (align_down v)) [
          | inl bad ↦ bad_round n 1 v 0x1000 s one bad
          | inr fine ↦
              round n 1 v 0x1000 (next_page v) s one fine
              ∙ ap (λ r. r >>= allocate_pages x p n 2 v)
                  (allocate_page-new s (next_page v) v new
                    ∙ map_frame-again s (next_page v) v frame (allocate_frame s.allocator) at)
        ]

    allocate_pages-panic :
        (n v : ℕ) (s : Mapping x)
        → v < u64_mod
        → contains s.regions (align_down v) ≡ false
        → contains s.regions (next_page v) ≡ false
        → allocate_pages x p (suc (suc n)) 0 v s ≡ panic
    allocate_pages-panic n v s small new next =
        let same : 0 + align_down v ≡ align_down v = omega arith in
        let first =
          round (suc n) 0 v 0 (align_down v) s (mul_mod-ok p u64_mod 0 0x1000 (omega arith))
            (add_mod-ok p u64_mod 0 (align_down v) (omega arith) ∙ ap ok same)
          ∙ ap (λ r. r >>= allocate_pages x p (suc n) 1 v)
              (allocate_page-new s (align_down v) v new) in
        elim (map_frame-Once s (align_down v) v (allocate_frame s.allocator)) [
          | inl bad ↦ first ∙ ap (λ r. r >>= allocate_pages x p (suc n) 1 v) bad
          | inr (s', fine, seen, frame, at) ↦
              let other : contains s'.regions (next_page v) ≡ false =
                ap (λ l. contains l (next_page v)) seen
                ∙ rw (≢→== (align_down v) (next_page v) (λ e. absurd (omega arith)), if◌then◌else◌)
                    next in
              first
              ∙ ap (λ r. r >>= allocate_pages x p (suc n) 1 v) fine
              ∙ second_page n v frame s' at other
        ]

    -- A `Load` segment of 4096 bytes of memory or more whose first two pages, with their addresses
    -- modulo 2^64, no earlier segment touched is not mapped: the code panics, at the latest at the
    -- second page, in either build and whatever the page tables and the frame allocator are.
    pub allocate_segment-panic :
        (h : ProgramHeader) (s : Mapping x)
        → is_load h.header_type ≡ true
        → h.virt_addr < u64_mod
        → 0x1000 ≤ h.mem_size
        → contains s.regions (align_down h.virt_addr) ≡ false
        → contains s.regions (next_page h.virt_addr) ≡ false
        → allocate_segment x p h s ≡ panic
    unfolding allocate_segment
    allocate_segment-panic h s loads small large new next =
        let k = h.mem_size / 0x1000 - 1 in
        let count : h.mem_size / 0x1000 + 1 ≡ suc (suc k) = omega arith in
        rw (loads, if◌then◌else◌, count) (allocate_pages-panic k h.virt_addr s small new next)
