-- ===== src/Gdt/Flat.antt =====
-- A table that is its number of entries.
use lobster_os_legacy.Prelude.{ℕ, ◌+◌, ◌*◌, refl}
use lobster_os_legacy.Gdt.{GlobalDescriptorTable, slots, level}

abbrev pub flat : GlobalDescriptorTable
flat = record {
  T = ℕ;
  new = 1;
  add_entry = λ d n. (8 * n + level d, n + slots d);
  size = λ n. n;
  size-new = refl;
  size-add_entry = λ d n room. refl;
  add_entry-selector = λ d n room. refl;
}
