-- ===== src/Process/Spawn.antt =====
-- `Process::spawn_from_file`, `new_page_table` and `map_stack` of src/process.rs.
-- A page table is the list of its raw entries; tables that are reached through the physical mapping
-- are those of a memory, by the physical address. What the x86_64 crate does with an entry is a
-- parameter.
use lobster_os_legacy.Prelude.{
  ℕ, zero, suc, ◌+◌, ◌%◌, ◌≡◌, Option, none, some, List, [], ◌∷◌, ◌==◌, if◌then◌else◌, replicate,
  set, get_or, Run, ok, panic, ◌>>=◌,
}
use lobster_os_legacy.Paging.{MapToError, Paging}
use lobster_os_legacy.Allocator.{page_of, range_inclusive}
use lobster_os_legacy.Process.{userspace_stack, userspace_stack_base}

-- `PageTableEntry`: the address and the flags of an entry.
pub record Entry : Type 0 where
  pub set_addr : (addr flags : ℕ) → ℕ
  pub addr : ℕ → ℕ
  pub addr-set_addr : (a flags : ℕ) → a % 0x1000 ≡ 0 → addr (set_addr a flags) ≡ a

-- Physical memory as page tables, by address.
abbrev pub Tables : Type 0
Tables = ℕ → List ℕ

abbrev pub set_table : Tables → ℕ → List ℕ → Tables
set_table t a entries b = if b == a then entries else t b

-- `PageTable::new` and `PageTable::zero`
abbrev pub zero_table : List ℕ
zero_table = replicate 512 0

-- `for i in 1..512 { to[i] = from[i].clone() }`, with `n` entries to go.
unfoldable pub copy_entries : ℕ → ℕ → List ℕ → List ℕ → List ℕ
copy_entries zero i from to = to
copy_entries (suc n) i from to = copy_entries n (i + 1) from (set to i (get_or from i 0))

-- PRESENT | WRITABLE, and USER_ACCESSIBLE with them.
abbrev pub kernel_flags : ℕ
kernel_flags = 3

abbrev pub user_flags : ℕ
user_flags = 7

module _ (e : Entry) where
  open e use {set_addr, addr}

  -- The frame `second` takes the table that maps the text buffer; only its entry 0 is written.
  abbrev pub map_vga : List ℕ → List ℕ → ℕ → ℕ → Tables → Tables
  map_vga current_page_table current_table_0 first second t =
      let page_table_0 = set (t first) 0 (set_addr second kernel_flags) in
      let t1 = set_table t first page_table_0 in
      let current_table_0_0 = t1 (addr (get_or current_table_0 0 0)) in
      let page_table_0_0 = t1 (addr (get_or page_table_0 0 0)) in
      set_table t1 (addr (get_or page_table_0 0 0))
        (set page_table_0_0 0 (get_or current_table_0_0 0 0))

  module _ {F : Type 0} (allocate_frame : F → Option ℕ × F) where
    abbrev pub with_second :
        List ℕ → List ℕ → List ℕ → ℕ → Tables → Option ℕ × F → Option (List ℕ) × F × Tables
    with_second current_page_table current_table_0 page_table first t (none, f) = (none, f, t)
    with_second current_page_table current_table_0 page_table first t (some second, f) =
        (some page_table, f, map_vga current_page_table current_table_0 first second t)

    abbrev pub with_first : List ℕ → Tables → Option ℕ × F → Option (List ℕ) × F × Tables
    with_first current_page_table t (none, f) = (none, f, t)
    with_first current_page_table t (some first, f) =
        let page_table = set zero_table 0 (set_addr first user_flags) in
        let at = addr (get_or page_table 0 0) in
        let current_table_0 = t (addr (get_or current_page_table 0 0)) in
        let page_table' = copy_entries 511 1 current_page_table page_table in
        let t1 = set_table t at (copy_entries 511 1 current_table_0 zero_table) in
        with_second current_page_table current_table_0 page_table' at t1 (allocate_frame f)

    unfoldable pub new_page_table : List ℕ → F → Tables → Option (List ℕ) × F × Tables
    unfolding copy_entries
    new_page_table current_page_table f t = with_first current_page_table t (allocate_frame f)

module _ (x : Paging) where
  open x use {M, F, allocate_frame, map_to}

  abbrev pub unwrap_map : Option MapToError × M × F → Run (M × F)
  unwrap_map (some error, m, f) = panic
  unwrap_map (none, m, f) = ok (m, f)

  -- One round of the loop: a frame for the page, and the mapping, each unwrapped.
  abbrev pub map_frame : ℕ → M → Option ℕ × F → Run (M × F)
  map_frame page m (none, f) = panic
  map_frame page m (some frame, f) = unwrap_map (map_to page frame user_flags m f)

  unfoldable pub map_stack_pages : List ℕ → M → F → Run (M × F)
  map_stack_pages [] m f = ok (m, f)
  map_stack_pages (page ∷ rest) m f = do
    s ← map_frame page m (allocate_frame f)
    map_stack_pages rest s.0 s.1

  unfoldable pub map_stack : M → F → Run (M × F)
  unfolding map_stack_pages range_inclusive
  map_stack m f =
      map_stack_pages (range_inclusive (page_of userspace_stack_base) (page_of userspace_stack)) m f
