-- ===== src/Process/Stack.antt =====
-- The user stack of a new process: `map_stack` of src/process.rs.
use lobster_os_legacy.Prelude.{
  ℕ, zero, suc, ◌+◌, ◌-◌, ◌*◌, ◌/◌, ◌≤◌, ◌<◌, ◌≡◌, ◌≢◌, ◌⊎◌, inl, inr, refl, ap, ◌∙◌, Option, none,
  some, Run, ok, panic, ◌>>=◌, arith,
}
use lobster_os_legacy.Paging.{MapToError, Paging}
use lobster_os_legacy.Allocator.{page_of, pages, range_inclusive}
use lobster_os_legacy.Process.{userspace_stack, userspace_stack_base}
use lobster_os_legacy.Process.Spawn.{user_flags, unwrap_map, map_frame, map_stack_pages, map_stack}

module _ (x : Paging) where
  open x use {M, F, allocate_frame, map_to, translate, map_to-translate, map_to-other}

  -- A round that panics: there is no frame for the page, or it is not mapped.
  abbrev Refused : ℕ → M → Option ℕ × F → Type 0
  Refused page m o =
      (o.0 ≡ none)
      ⊎ ((frame : ℕ) × (error : MapToError) × ((map_to page frame user_flags m o.1).0 ≡ some error))

  -- Of `n` pages from one on, the first is refused, or it is mapped and the rest comes to a refusal.
  pub data Stuck : ℕ → ℕ → M → F → Type 0 where
    now : {n page : ℕ} {m : M} {f : F} → Refused page m (allocate_frame f) → Stuck (suc n) page m f
    later :
        {n page : ℕ} {m : M} {f : F} (s : M × F)
        → map_frame x page m (allocate_frame f) ≡ ok s
        → Stuck n (page + 0x1000) s.0 s.1
        → Stuck (suc n) page m f

  -- What a round that does not panic has done: the page has a frame, the other pages are as before.
  abbrev Maps : ℕ → M → Type 0 → Run (M × F) → Type 0
  Maps page m Failed r =
      ((r ≡ panic) × Failed)
      ⊎ ((s : M × F) × (r ≡ ok s)
          × ((frame : ℕ) × (translate s.0 page ≡ some frame))
          × ((other : ℕ) → other ≢ page → translate s.0 other ≡ translate m other))

  unwrap_map-Maps :
      (page frame : ℕ) (m : M) (f : F) (r : Option MapToError × M × F)
      → (map_to page frame user_flags m f ≡ r)
      → (r.0 ≡ none → translate r.1 page ≡ some frame)
      → ((other : ℕ) → other ≢ page → translate r.1 other ≡ translate m other)
      → Maps page m (Refused page m (some frame, f)) (unwrap_map x r)
  unwrap_map-Maps page frame m f (some error, m', f') e here others =
      inl (refl, inr (frame, error, ap (λ q. q.0) e))
  unwrap_map-Maps page frame m f (none, m', f') e here others =
      inr ((m', f'), refl, (frame, here refl), others)

  map_frame-Maps :
      (page : ℕ) (m : M) (o : Option ℕ × F) → Maps page m (Refused page m o) (map_frame x page m o)
  map_frame-Maps page m (none, f) = inl (refl, inl refl)
  map_frame-Maps page m (some frame, f) =
      unwrap_map-Maps page frame m f (map_to page frame user_flags m f) refl
        (map_to-translate page frame user_flags m f)
        (λ other ne. map_to-other page frame user_flags other m f ne)

  -- The pages of a range: all have a frame, or the code panicked.
  abbrev AllMapped : ℕ → ℕ → M → F → Run (M × F) → Type 0
  AllMapped n first m f r =
      ((r ≡ panic) × Stuck n first m f)
      ⊎ ((s : M × F) × (r ≡ ok s)
          × ((k : ℕ) → k < n → (frame : ℕ) × (translate s.0 (first + k * 0x1000) ≡ some frame))
          × ((other : ℕ) → other < first → translate s.0 other ≡ translate m other))

  map_stack_pages-AllMapped :
      (n first : ℕ) (m : M) (f : F) → AllMapped n first m f (map_stack_pages x (pages n first) m f)
  unfolding map_stack_pages pages
  map_stack_pages-AllMapped zero first m f =
      inr ((m, f), refl, (λ k lt. absurd (omega arith)), λ other lt. refl)
  map_stack_pages-AllMapped (suc n) first m f = elim (map_frame-Maps first m (allocate_frame f)) [
    | inl (bad, why) ↦ inl (ap (λ r. r >>= more) bad, now why)
    | inr (s, fine, here, others) ↦ elim (map_stack_pages-AllMapped n (first + 0x1000) s.0 s.1) [
      | inl (bad, why) ↦ inl (ap (λ r. r >>= more) fine ∙ bad, later s fine why)
      | inr (s', fine', mapped, below) ↦ inr (
        s',
        ap (λ r. r >>= more) fine ∙ fine',
        on s s' here mapped below,
        λ other lt. below other (omega arith) ∙ others other (λ e. absurd (omega arith)),
      )
    ]
  ]
    where
      more : M × F → Run (M × F)
      more s = map_stack_pages x (pages n (first + 0x1000)) s.0 s.1

      on :
          (s s' : M × F)
          → ((frame : ℕ) × (translate s.0 first ≡ some frame))
          → ((k : ℕ)
              → k < n
              → (frame : ℕ) × (translate s'.0 (first + 0x1000 + k * 0x1000) ≡ some frame))
          → ((other : ℕ) → other < first + 0x1000 → translate s'.0 other ≡ translate s.0 other)
          → (k : ℕ) → k < suc n
          → (frame : ℕ) × (translate s'.0 (first + k * 0x1000) ≡ some frame)
      on s s' (frame, e) mapped below zero lt =
          let at : first + 0 * 0x1000 ≡ first = omega arith in
          (frame, rw at (below first (omega arith) ∙ e))
      on s s' here mapped below (suc k) lt =
          let at : first + suc k * 0x1000 ≡ first + 0x1000 + k * 0x1000 = omega arith in
          rw at (mapped k (omega arith))

  -- `map_stack` gives every address from 0x800000 to 0x810fff a frame, the page of the initial stack
  -- pointer 0x810000 with it, and leaves the pages below as they were; or it panics, and then one of
  -- these 17 pages, with those before it mapped one after another by the same run, finds no frame or
  -- is refused by `map_to`.
  pub map_stack-maps :
      (m : M) (f : F)
      → ((map_stack x m f ≡ panic) × Stuck 17 userspace_stack_base m f)
        ⊎ ((s : M × F) × (map_stack x m f ≡ ok s)
            × ((addr : ℕ)
                → userspace_stack_base ≤ addr
                → addr < userspace_stack + 0x1000
                → (frame : ℕ) × (translate s.0 (page_of addr) ≡ some frame))
            × ((other : ℕ)
                → other < userspace_stack_base
                → translate s.0 other ≡ translate m other))
  unfolding map_stack range_inclusive
  map_stack-maps m f = elim (map_stack_pages-AllMapped 17 userspace_stack_base m f) [
    | inl bad ↦ inl bad
    | inr (s, fine, mapped, below) ↦ inr (
      s,
      fine,
      λ addr lo hi.
          let k = (addr - userspace_stack_base) / 0x1000 in
          let at : page_of addr ≡ userspace_stack_base + k * 0x1000 = omega arith in
          rw at (mapped k (omega arith)),
      below,
    )
  ]
