-- ===== src/Process/Spawned.antt =====
-- What `spawn_from_file` of src/process.rs leaves, and the first run of the process it makes.
use mathlib.Core.Path.{subst}
use lobster_os_legacy.Prelude.{
  ◌∙◌, ℕ, ◌≡◌, ◌⊎◌, inl, inr, refl, ap, Option, none, some, true, List, take, drop, [], length, leb,
  ltb, Bool, false, if◌then◌else◌, Run, ok, panic, out_of_fuel, ◌>>=◌, expect, Profile,
}
use lobster_os_legacy.Paging.{Paging}
use lobster_os_legacy.Process.{
  Process, Machine, Selectors, user, userspace_stack, set_usermode_segments, activate,
  switch_to_usermode,
}
use lobster_os_legacy.Process.Context.{activate_fresh}
use lobster_os_legacy.Process.Spawn.{Entry, Tables, new_page_table, map_stack}
use lobster_os_legacy.Process.File.{
  ProcessSpawnError, Kernel, frame_of, enter_context, leave_context, spawned, spawn_from_file,
}
use lobster_os_legacy.Elf.{ElfHeader, ElfVerifyError, Mapping, from_slice, size_of_elf_header}
use lobster_os_legacy.Elf.Load.{
  Bytes, load_segments, loaded, program_headers, map_elf_file_to_process,
}

bind-ok {ℓ κ ι} :
    {A : Type ℓ} {B : Type κ} {C : Type ι} (r : Run A) (f : A → Run B) (b : B)
    → (r >>= f) ≡ ok b
    → ((a : A) → r ≡ ok a → f a ≡ ok b → C)
    → C
bind-ok (ok a) f b h c = c a refl h
bind-ok panic f b h c = cc
bind-ok out_of_fuel f b h c = cc

ok-injective {ℓ} : {A : Type ℓ} (a b : A) → ok a ≡ ok b → a ≡ b
ok-injective a b h = cc

expect-ok {ℓ} : {A : Type ℓ} (o : Option A) (a : A) → expect o ≡ ok a → o ≡ some a
expect-ok none a h = cc
expect-ok (some b) a h = cc

module _ (p : Profile) (x : Paging) (file : List ℕ) (m : x.M) (f : x.F) (v : Bytes) where
  loaded-entry :
      (r : ElfVerifyError ⊎ ElfHeader) (s : Mapping x × Bytes × ℕ)
      → loaded p x file m f v r ≡ ok s
      → (header : ElfHeader) × (r ≡ inr header) × (s.2 ≡ header.program_entry)
  loaded-entry (inl e) s h = cc
  loaded-entry (inr header) s h =
      (header, refl, on (ltb header.program_header_table (length file)) h)
    where
      start : Run (Mapping x × Bytes)
      start =
          load_segments p x file
            (program_headers header.program_entry_count (drop header.program_header_table file))
            (record { tables = m; allocator = f; regions = []; frames = [] }, v)

      on :
          (b : Bool)
          → (if b then (start >>= λ s'. ok (s'.0, s'.1, header.program_entry)) else panic) ≡ ok s
          → s.2 ≡ header.program_entry
      on true h' =
          bind-ok start (λ s'. ok (s'.0, s'.1, header.program_entry)) s h' (λ s' eq same. cc)
      on false h' = cc

  map_elf-entry :
      (s : Mapping x × Bytes × ℕ)
      → map_elf_file_to_process p x file m f v ≡ ok s
      → (header : ElfHeader) × (from_slice (take size_of_elf_header file) ≡ inr header)
        × (s.2 ≡ header.program_entry)
  unfolding map_elf_file_to_process
  map_elf-entry s h = on (leb size_of_elf_header (length file)) h
    where
      on :
          (b : Bool)
          → (if b then loaded p x file m f v (from_slice (take size_of_elf_header file)) else panic)
            ≡ ok s
          → (header : ElfHeader) × (from_slice (take size_of_elf_header file) ≡ inr header)
            × (s.2 ≡ header.program_entry)
      on true h' = loaded-entry (from_slice (take size_of_elf_header file)) s h'
      on false h' = cc

module _ (p : Profile) (e : Entry) (x : Paging) (translate_addr : ℕ → Option ℕ) (box_addr : ℕ)
    (new_mapper : List ℕ → Tables → x.M) (level_4 : x.M → List ℕ) (tables_of : x.M → Tables) where
  abbrev pub Started : List ℕ → Machine → (ProcessSpawnError ⊎ Process) → Kernel x.F → Type 0
  Started file m r k' =
      (k'.machine.cr3 ≡ m.cr3)
      × (k'.machine.interrupts ≡ true)
      × (k'.machine.scheduler_locked ≡ m.scheduler_locked)
      × (q : Process) × (r ≡ inr q)
      × (header : ElfHeader) × (from_slice (take size_of_elf_header file) ≡ inr header)
      × (addr : ℕ) × (translate_addr box_addr ≡ some addr)
      × ((g : Selectors) (n : Machine)
          → ((activate g q n).control
              ≡ user header.program_entry (set_usermode_segments g).0 0x200 userspace_stack
                  (set_usermode_segments g).1)
            × ((activate g q n).cr3 ≡ frame_of addr))

  started :
      (file : List ℕ) (m : Machine) (memory : Tables) (addr : ℕ) (elf : Mapping x × Bytes × ℕ)
      (header : ElfHeader)
      → translate_addr box_addr ≡ some addr
      → from_slice (take size_of_elf_header file) ≡ inr header
      → elf.2 ≡ header.program_entry
      → Started file m
          (inr
            (spawned p e x translate_addr box_addr new_mapper level_4 tables_of addr elf.0 elf.2))
          (record {
            machine =
                leave_context p e x translate_addr box_addr new_mapper level_4 tables_of m.cr3
                  (enter_context p e x translate_addr box_addr new_mapper level_4 tables_of addr m);
            memory = memory;
            allocator = elf.0.allocator;
            space = elf.1;
          })
  unfolding activate switch_to_usermode
  started file m memory addr elf header at valid entry = (
    refl,
    refl,
    refl,
    spawned p e x translate_addr box_addr new_mapper level_4 tables_of addr elf.0 elf.2,
    refl,
    header,
    valid,
    addr,
    at,
    λ g n. (
      activate_fresh g
            (spawned p e x translate_addr box_addr new_mapper level_4 tables_of addr elf.0 elf.2) n
            refl
          ∙ ap
              (λ i.
                user i (set_usermode_segments g).0 0x200 userspace_stack
                  (set_usermode_segments g).1)
              entry,
      refl,
    ),
  )

  -- When `spawn_from_file` returns, the context of the caller is back in `cr3`, interrupts are on and
  -- the scheduler's lock is as it was; it returns a process, never the error. The file starts with a valid ELF header, and when that
  -- process is activated for the first time, it starts in ring 3 at the header's entry point, with
  -- the user stack, in the context of its own page table.
  pub spawn_from_file-activate :
      (file : List ℕ) (k k' : Kernel x.F) (r : ProcessSpawnError ⊎ Process)
      → spawn_from_file p e x translate_addr box_addr new_mapper level_4 tables_of file k
        ≡ ok (r, k')
      → Started file k.machine r k'
  unfolding spawn_from_file
  spawn_from_file-activate file k k' r h =
      let made = new_page_table e x.allocate_frame (k.memory k.machine.cr3) k.allocator k.memory in
      bind-ok (expect made.0) _ (r, k') h
        (λ page_table e1 h1.
          bind-ok (expect (translate_addr box_addr)) _ (r, k') h1
            (λ addr e2 h2.
              bind-ok (map_stack x (new_mapper page_table made.2) made.1) _ (r, k') h2
                (λ stack e3 h3.
                  bind-ok (map_elf_file_to_process p x file stack.0 stack.1 k.space) _ (r, k') h3
                    (λ elf e4 h4.
                      let (header, valid, entry) =
                        map_elf-entry p x file stack.0 stack.1 k.space elf e4 in
                      subst (λ z. Started file k.machine z.0 z.1) (ok-injective _ _ h4)
                        (started file k.machine (tables_of elf.0.tables) addr elf header
                          (expect-ok _ _ e2) valid entry)))))
