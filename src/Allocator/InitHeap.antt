-- ===== src/Allocator/InitHeap.antt =====
-- `init_heap` maps the whole heap.
use mathlib.Core.Path.{subst}
use lobster_os_legacy.Prelude.{
  ℕ, zero, suc, ◌+◌, ◌-◌, ◌*◌, ◌/◌, ◌≤◌, ◌<◌, ◌≡◌, ◌≢◌, refl, Option, none, some, List, ◌∷◌, arith,
  inl, inr, Option-cases, ◌∙◌, ap, sym,
}
use lobster_os_legacy.Paging.{MapToError, Paging}
use lobster_os_legacy.Allocator.{
  heap_start, heap_size, page_of, pages, map_frame, map_page, map_pages, init_heap,
}

module _ (x : Paging) where
  open x use {M, F, allocate_frame, map_to, translate, map_to-translate, map_to-other}

  map_frame-other :
      (page other : ℕ) (m : M) (r : Option ℕ × F)
      → other ≢ page
      → translate (map_frame x page m r).1 other ≡ translate m other
  map_frame-other page other m (none, f) ne = refl
  map_frame-other page other m (some frame, f) ne = map_to-other page frame 3 other m f ne

  map_frame-maps :
      (page : ℕ) (m : M) (r : Option ℕ × F)
      → (map_frame x page m r).0 ≡ none
      → (frame : ℕ) × (translate (map_frame x page m r).1 page ≡ some frame)
  map_frame-maps page m (none, f) h = cc
  map_frame-maps page m (some frame, f) h = (frame, map_to-translate page frame 3 m f h)

  map_pages-none :
      (page : ℕ) (rest : List ℕ) (m : M) (f : F)
      → (map_page x page m f).0 ≡ none
      → map_pages x (page ∷ rest) m f
        ≡ map_pages x rest (map_page x page m f).1 (map_page x page m f).2
  unfolding map_pages
  map_pages-none page rest m f h = rw (h, map_pages)

  map_pages-some :
      (page : ℕ) (rest : List ℕ) (m : M) (f : F) (e : MapToError)
      → (map_page x page m f).0 ≡ some e
      → map_pages x (page ∷ rest) m f ≡ map_page x page m f
  unfolding map_pages
  map_pages-some page rest m f e h = rw (h, map_pages)

  -- Pages below the first one are left alone.
  map_pages-below :
      (n first other : ℕ) (m : M) (f : F)
      → other < first
      → translate (map_pages x (pages n first) m f).1 other ≡ translate m other
  unfolding map_pages pages
  map_pages-below zero first other m f lt = refl
  map_pages-below (suc n) first other m f lt =
      let r = map_page x first m f in
      let step = map_frame-other first other m (allocate_frame f) (omega arith) in
      elim (Option-cases r.0) [
        | inl fine ↦
            ap (λ o. translate o.1 other) (map_pages-none first (pages n (first + 0x1000)) m f fine)
            ∙ map_pages-below n (first + 0x1000) other r.1 r.2 (omega arith)
            ∙ step
        | inr (e, bad) ↦
            ap (λ o. translate o.1 other)
              (map_pages-some first (pages n (first + 0x1000)) m f e bad)
            ∙ step
      ]

  map_pages-maps :
      (n first k : ℕ) (m : M) (f : F)
      → (map_pages x (pages n first) m f).0 ≡ none
      → k < n
      → (frame : ℕ) × (translate (map_pages x (pages n first) m f).1 (first + k * 0x1000)
          ≡ some frame)
  unfolding pages
  map_pages-maps zero first k m f h lt = absurd (omega arith)
  map_pages-maps (suc n) first k m f h lt =
      let r = map_page x first m f in
      let more = pages n (first + 0x1000) in
      elim (Option-cases r.0) [
        | inr (e, bad) ↦
            cc (sym bad ∙ sym (ap (λ o. o.0) (map_pages-some first more m f e bad)) ∙ h)
        | inl fine ↦
            let same = map_pages-none first more m f fine in
            subst (λ o. (frame : ℕ) × (translate o.1 (first + k * 0x1000) ≡ some frame)) (sym same)
              (later k lt r.1 r.2 (map_frame-maps first m (allocate_frame f) fine)
                (sym (ap (λ o. o.0) same) ∙ h)
                (λ j lt' g. map_pages-maps n (first + 0x1000) j r.1 r.2 g lt'))
      ]
    where
      later :
          (j : ℕ)
          → j < suc n
          → (m' : M) (f' : F) → (frame : ℕ) × (translate m' first ≡ some frame)
          → (map_pages x (pages n (first + 0x1000)) m' f').0 ≡ none
          → ((i : ℕ)
              → i < n
              → (map_pages x (pages n (first + 0x1000)) m' f').0 ≡ none
              → (frame : ℕ) × (translate
                    (map_pages x (pages n (first + 0x1000)) m' f').1
                    (first + 0x1000 + i * 0x1000)
                  ≡ some frame))
          → (frame : ℕ) × (translate
                (map_pages x (pages n (first + 0x1000)) m' f').1
                (first + j * 0x1000)
              ≡ some frame)
      later zero l m' f' (frame, e) ok' ih =
          let at : first + 0 * 0x1000 ≡ first = omega arith in
          (frame, rw at (map_pages-below n (first + 0x1000) first m' f' (omega arith) ∙ e))
      later (suc i) l m' f' here ok' ih =
          let at : first + suc i * 0x1000 ≡ first + 0x1000 + i * 0x1000 = omega arith in
          rw at (ih i (omega arith) ok')

  -- After a success of `init_heap` every address of the heap lies in a mapped page, and the
  -- allocator was started with the heap's bounds.
  pub init_heap-maps :
      {A : Type 0} (init : ℕ → ℕ → A → A) (m : M) (f : F) (a : A)
      → (init_heap x init m f a).0 ≡ none
      → (addr : ℕ) → heap_start ≤ addr
      → addr < heap_start + heap_size
      → ((frame : ℕ) × (translate (init_heap x init m f a).1 (page_of addr) ≡ some frame))
        × ((init_heap x init m f a).3 ≡ init heap_start heap_size a)
  unfolding init_heap
  init_heap-maps init m f a h addr lo hi =
      let k = (addr - heap_start) / 0x1000 in
      let at : page_of addr ≡ heap_start + k * 0x1000 = omega arith in
      (rw at (map_pages-maps 0x100 heap_start k m f h (omega arith)), rw h)
