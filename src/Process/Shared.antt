-- ===== src/Process/Shared.antt =====
-- What the page table of a new process shares with that of the kernel: `new_page_table` of
-- src/process.rs.
use lobster_os_legacy.Prelude.{
  ℕ, zero, suc, ◌+◌, ◌%◌, ◌≤◌, ◌<◌, ◌≡◌, ◌≢◌, ◌⊎◌, inl, inr, refl, ap, sym, ◌∙◌, Option, some, List,
  ==_iff, ≢→==, if◌then◌else◌, set, get_or, length, length-set, get_or-set_self, get_or-set_ne,
  arith,
}
use lobster_os_legacy.Process.Spawn.{
  Entry, Tables, set_table, zero_table, copy_entries, kernel_flags, user_flags, map_vga,
  with_second, with_first, new_page_table,
}

set_same : (t : Tables) (a : ℕ) (l : List ℕ) → set_table t a l a ≡ l
set_same t a l = ap (λ b. if b then l else t a) ((==_iff a a).1 refl)

set_other : (t : Tables) (a b : ℕ) (l : List ℕ) → b ≢ a → set_table t a l b ≡ t b
set_other t a b l ne = ap (λ c. if c then l else t b) (≢→== b a ne)

length-copy : (n i : ℕ) (from to : List ℕ) → length (copy_entries n i from to) ≡ length to
unfolding copy_entries
length-copy zero i from to = refl
length-copy (suc n) i from to = length-copy n (i + 1) from _ ∙ length-set to i _

copy_before :
    (n i j : ℕ) (from to : List ℕ) → j < i → get_or (copy_entries n i from to) j 0 ≡ get_or to j 0
unfolding copy_entries
copy_before zero i j from to lt = refl
copy_before (suc n) i j from to lt =
    copy_before n (i + 1) j from _ (omega arith)
    ∙ get_or-set_ne to (get_or from i 0) 0 (λ e. absurd (omega arith))

copy_within :
    (n i j : ℕ) (from to : List ℕ)
    → i + n ≤ length to
    → i ≤ j
    → j < i + n
    → get_or (copy_entries n i from to) j 0 ≡ get_or from j 0
unfolding copy_entries
copy_within zero i j from to room lo hi = absurd (omega arith)
copy_within (suc n) i j from to room lo hi = elim at [
  | inl e ↦
      copy_before n (i + 1) j from _ (omega arith)
      ∙ ap (λ k. get_or (set to k (get_or from k 0)) j 0) (sym e)
      ∙ get_or-set_self to j _ 0 (omega arith)
  | inr lt ↦
      copy_within n (i + 1) j from _ (omega (arith, length-set to i (get_or from i 0))) lt
        (omega arith)
]
  where
    at : (j ≡ i) ⊎ (i + 1 ≤ j)
    at = omega arith

-- What the tables of the new process hold: `first` is its level 3 table and `second` the level 2
-- table of the lowest addresses, `t` and `t'` the memory before and after.
pub record Shares (e : Entry) (current page_table : List ℕ) (first second : ℕ) (t t' : Tables)
    : Type 0 where
  pub top_entry : e.addr (get_or page_table 0 0) ≡ first
  pub top_shared : (i : ℕ) → 1 ≤ i → i < 512 → get_or page_table i 0 ≡ get_or current i 0
  pub low_entry : e.addr (get_or (t' first) 0 0) ≡ second
  pub low_shared :
      (i : ℕ)
      → 1 ≤ i
      → i < 512
      → get_or (t' first) i 0 ≡ get_or (t (e.addr (get_or current 0 0))) i 0
  pub text_buffer :
      get_or (t' second) 0 0
      ≡ get_or (t (e.addr (get_or (t (e.addr (get_or current 0 0))) 0 0))) 0 0
  pub not_cleared : (i : ℕ) → 1 ≤ i → get_or (t' second) i 0 ≡ get_or (t second) i 0
  pub untouched : (a : ℕ) → a ≢ first → a ≢ second → t' a ≡ t a

module _ (e : Entry) {F : Type 0} (allocate_frame : F → Option ℕ × F) (current : List ℕ)
    (f f1 f2 : F) (t : Tables) (first second : ℕ) (distinct : first ≢ second) where
  open e use {set_addr, addr, addr-set_addr}

  abbrev low_table : List ℕ
  low_table = t (addr (get_or current 0 0))

  abbrev vga_at : ℕ
  vga_at = addr (get_or low_table 0 0)

  abbrev copied : List ℕ
  copied = copy_entries 511 1 low_table zero_table

  abbrev page_table : List ℕ
  page_table = copy_entries 511 1 current (set zero_table 0 (set_addr first user_flags))

  -- The memory once `page_table_0` is complete.
  abbrev with_low : Tables
  with_low =
      set_table (set_table t first copied) first (set copied 0 (set_addr second kernel_flags))

  abbrev final : Tables
  final = set_table with_low second (set (with_low second) 0 (get_or (with_low vga_at) 0 0))

  with_low-other : (a : ℕ) → a ≢ first → with_low a ≡ t a
  with_low-other a ne =
      set_other (set_table t first copied) first a _ ne ∙ set_other t first a copied ne

  length-copied : length copied ≡ 512
  length-copied = length-copy 511 1 low_table zero_table

  map_vga-final :
      second % 0x1000 ≡ 0
      → map_vga e current low_table first second (set_table t first copied) ≡ final
  map_vga-final aligned =
      let entry = set_addr second kernel_flags in
      let at : addr (get_or (set copied 0 entry) 0 0) ≡ second =
        ap addr (get_or-set_self copied 0 entry 0 (omega (arith, length-copied)))
        ∙ addr-set_addr second kernel_flags aligned in
      ap
        (λ l.
          let t2 = set_table (set_table t first copied) first (set l 0 entry) in
          let s = addr (get_or (set l 0 entry) 0 0) in
          set_table t2 s (set (t2 s) 0 (get_or (t2 vga_at) 0 0)))
        (set_same t first copied)
      ∙ ap (λ s. set_table with_low s (set (with_low s) 0 (get_or (with_low vga_at) 0 0))) at

  new_page_table-final :
      first % 0x1000 ≡ 0
      → second % 0x1000 ≡ 0
      → allocate_frame f ≡ (some first, f1)
      → allocate_frame f1 ≡ (some second, f2)
      → new_page_table e allocate_frame current f t ≡ (some page_table, f2, final)
  unfolding new_page_table
  new_page_table-final aligned aligned' given given' =
      ap (with_first e allocate_frame current t) given
      ∙ ap
          (λ at.
            with_second e allocate_frame current low_table page_table at (set_table t at copied)
              (allocate_frame f1))
          (addr-set_addr first user_flags aligned)
      ∙ ap
          (with_second e allocate_frame current low_table page_table first
            (set_table t first copied))
          given'
      ∙ ap (λ t'. (some page_table, f2, t')) (map_vga-final aligned')

  final-Shares :
      first % 0x1000 ≡ 0
      → second % 0x1000 ≡ 0
      → vga_at ≢ first
      → 1 ≤ length (t second)
      → Shares e current page_table first second t final
  final-Shares aligned aligned' apart room =
      let new_entry = set_addr second kernel_flags in
      let at_first : final first ≡ set copied 0 new_entry =
        set_other with_low second first _ distinct ∙ set_same (set_table t first copied) first _ in
      let at_second : final second ≡ set (t second) 0 (get_or (t vga_at) 0 0) =
        set_same with_low second _
        ∙ ap (λ l. set l 0 (get_or (with_low vga_at) 0 0))
            (with_low-other second (λ z. distinct (sym z)))
        ∙ ap (λ l. set (t second) 0 (get_or l 0 0)) (with_low-other vga_at apart) in
      record {
        top_entry =
            ap addr (copy_before 511 1 0 current _ (omega arith))
            ∙ addr-set_addr first user_flags aligned;
        top_shared = λ i lo hi. copy_within 511 1 i current _ (omega arith) lo (omega arith);
        low_entry =
            ap (λ l. addr (get_or l 0 0)) at_first
            ∙ ap addr (get_or-set_self copied 0 new_entry 0 (omega (arith, length-copied)))
            ∙ addr-set_addr second kernel_flags aligned';
        low_shared = λ i lo hi.
            ap (λ l. get_or l i 0) at_first
            ∙ get_or-set_ne copied new_entry 0 (λ z. absurd (omega arith))
            ∙ copy_within 511 1 i low_table zero_table (omega arith) lo (omega arith);
        text_buffer =
            ap (λ l. get_or l 0 0) at_second ∙ get_or-set_self (t second) 0 _ 0 (omega arith);
        not_cleared = λ i lo.
            ap (λ l. get_or l i 0) at_second
            ∙ get_or-set_ne (t second) _ 0 (λ z. absurd (omega arith));
        untouched = λ a ne ne'. set_other with_low second a _ ne' ∙ with_low-other a ne;
      }

  -- With two frames to give out, `new_page_table` succeeds: the new level 4 table is the kernel's
  -- but for entry 0, which leads to a copy of the kernel's first level 3 table; entry 0 of that leads
  -- to a table whose entry 0 is the kernel's, for the text buffer. The entries 1 to 511 of that last
  -- table are what its frame held before. No other table changes.
  pub new_page_table-Shares :
      first % 0x1000 ≡ 0
      → second % 0x1000 ≡ 0
      → vga_at ≢ first
      → 1 ≤ length (t second)
      → allocate_frame f ≡ (some first, f1)
      → allocate_frame f1 ≡ (some second, f2)
      → (page_table' : List ℕ) × (t' : Tables) × (new_page_table e allocate_frame current f t
          ≡ (some page_table', f2, t'))
        × Shares e current page_table' first second t t'
  new_page_table-Shares aligned aligned' apart room given given' = (
    page_table,
    final,
    new_page_table-final aligned aligned' given given',
    final-Shares aligned aligned' apart room,
  )
