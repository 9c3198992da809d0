-- ===== src/Paging/Flat.antt =====
-- Page tables that show that the interface can be met: each page from the start of a range up to the
-- bound `m` is mapped to the frame at the same address, and the next page of the range is mapped next.
use lobster_os_legacy.Prelude.{
  ℕ, ◌+◌, ◌%◌, ◌≡◌, ◌≢◌, refl, Option, none, some, Bool, true, false, ltb, ◌==◌, if◌then◌else◌,
  arith,
}
use lobster_os_legacy.Paging.{MapToError, parent_entry_huge_page, page_already_mapped, Paging}

abbrev pub translate : ℕ → ℕ → Option ℕ
translate m page = if ltb page m then (if page % 0x1000 == 0 then some page else none) else none

abbrev map_new : {F : Type 0} → Bool → ℕ → F → Option MapToError × ℕ × F
map_new true m f = (none, m + 0x1000, f)
map_new false m f = (some parent_entry_huge_page, m, f)

abbrev fits : ℕ → ℕ → ℕ → Bool
fits page frame m =
    if page == m then (if frame == page then page % 0x1000 == 0 else false) else false

abbrev map_on : {F : Type 0} → Option ℕ → ℕ → ℕ → ℕ → F → Option MapToError × ℕ × F
map_on (some old) page frame m f = (some (page_already_mapped old), m, f)
map_on none page frame m f = map_new (fits page frame m) m f

pub map_to-translate :
    {F : Type 0} (o : Option ℕ) (page frame m : ℕ) (f : F)
    → (map_on o page frame m f).0 ≡ none
    → translate (map_on o page frame m f).1 page ≡ some frame
map_to-translate (some old) page frame m f h = cc
map_to-translate none page frame m f h = on (fits page frame m) refl h
  where
    on :
        (b : Bool)
        → fits page frame m ≡ b
        → (map_new b m f).0 ≡ none
        → translate (map_new b m f).1 page ≡ some frame
    on true e h' = ground arith
    on false e h' = cc

pub map_to-other :
    {F : Type 0} (o : Option ℕ) (page frame other m : ℕ) (f : F)
    → other ≢ page
    → translate (map_on o page frame m f).1 other ≡ translate m other
map_to-other (some old) page frame other m f h = refl
map_to-other none page frame other m f h = on (fits page frame m) refl
  where
    on : (b : Bool) → fits page frame m ≡ b → translate (map_new b m f).1 other ≡ translate m other
    on true e = ground arith
    on false e = refl

pub map_to-again :
    {F : Type 0} (o : Option ℕ) (page frame old m : ℕ) (f : F)
    → o ≡ some old
    → (map_on o page frame m f).0 ≡ some (page_already_mapped old)
map_to-again none page frame old m f h = cc
map_to-again (some o) page frame old m f h = cc h

-- With any frame allocator.
abbrev pub flat_with : {F : Type 0} → (F → Option ℕ × F) → Paging
flat_with {F = F} allocate_frame = record {
  M = ℕ;
  F = F;
  allocate_frame = allocate_frame;
  map_to = λ page frame flags m f. map_on (translate m page) page frame m f;
  translate = translate;
  map_to-translate = λ page frame flags m f. map_to-translate (translate m page) page frame m f;
  map_to-other = λ page frame flags other m f. map_to-other (translate m page) page frame other m f;
  map_to-again = λ page frame flags old m f. map_to-again (translate m page) page frame old m f;
}

-- The state of the allocator is the next frame.
abbrev pub flat : Paging
flat = flat_with (λ (f : ℕ). (some f, f + 0x1000))
