-- ===== src/Pci/Listed.antt =====
-- The enumeration against an independent description of the functions on a bus.
use mathlib.Core.Path.{subst}
use lobster_os_legacy.Prelude.{
  ℕ, zero, suc, ◌/◌, ◌%◌, ◌≤◌, ◌<◌, ◌≡◌, ◌≢◌, ◌⊎◌, ◌↔◌, inl, inr, refl, sym, List, [], ◌∷◌, Bool,
  true, false, ◌==◌, if◌then◌else◌, ok, Profile, In, here, there, In-append, In-append_left,
  In-append_right, In-gather, gather-In, All, arith, ==_iff, ≢→==, ==→≢, In-if, if_true-In,
  if_false-In, In-single,
}
use lobster_os_legacy.Pci.{enumerate_bus}
use lobster_os_legacy.Pci.Config.{McfgEntry, from_addr}
use lobster_os_legacy.Pci.Found.{
  address, kept, more, slot, bus_functions, bridge_functions, all_functions, IsSound,
  check_bridges-ok,
}

module _ (mem : ℕ → ℕ) (phys_offset : ℕ) where
  -- A general device answers at function 0, and the other functions count if it is a multi-function
  -- device and they answer.
  abbrev pub IsFunction : McfgEntry → ℕ → ℕ → ℕ → Type 0
  IsFunction bridge bus dev function =
      let first = from_addr mem (address phys_offset bridge bus dev 0) in
      let this = from_addr mem (address phys_offset bridge bus dev function) in
      (first.header_type % 0x80 ≡ 0)
      × (first.vendor_id ≢ 0xFFFF)
      × ((function ≡ 0) ⊎ ((first.header_type / 0x80 % 2 ≢ 0) × (this.vendor_id ≢ 0xFFFF)))

  -- The buses from the first to the one before the last.
  abbrev pub IsOn : McfgEntry → ℕ → Type 0
  IsOn bridge a =
      (bus : ℕ) × (dev : ℕ) × (function : ℕ) × (bridge.start_bus ≤ bus)
      × (bus < bridge.end_bus)
      × (dev < 32)
      × (function < 8)
      × IsFunction bridge bus dev function
      × (a ≡ address phys_offset bridge bus dev function)

module _ (p : Profile) (mem : ℕ → ℕ) (phys_offset : ℕ) where
  kept-In :
      (bridge : McfgEntry) (bus dev function : ℕ)
      → (from_addr mem (address phys_offset bridge bus dev function)).vendor_id ≢ 0xFFFF
      → In
          (address phys_offset bridge bus dev function)
          (kept p mem phys_offset bridge bus dev function)
  kept-In bridge bus dev function h =
      if_false-In (address phys_offset bridge bus dev function)
        ((from_addr mem (address phys_offset bridge bus dev function)).vendor_id == 0xFFFF) []
        (address phys_offset bridge bus dev function ∷ []) (≢→== _ _ h) (here refl)

  In-kept :
      (bridge : McfgEntry) (bus dev function a : ℕ)
      → In a (kept p mem phys_offset bridge bus dev function)
      → ((from_addr mem (address phys_offset bridge bus dev function)).vendor_id ≢ 0xFFFF)
        × (a ≡ address phys_offset bridge bus dev function)
  In-kept bridge bus dev function a h =
      elim (In-if a
        ((from_addr mem (address phys_offset bridge bus dev function)).vendor_id == 0xFFFF) []
        (address phys_offset bridge bus dev function ∷ []) h) [
          | inl (e, none) ↦ elim none [ ]
          | inr (e, one) ↦ (==→≢ _ _ e, In-single _ _ one)
        ]

  more-In :
      (bridge : McfgEntry) (bus dev k : ℕ) (b : Bool)
      → b ≡ false
      → suc k < 8
      → (from_addr mem (address phys_offset bridge bus dev (suc k))).vendor_id ≢ 0xFFFF
      → In (address phys_offset bridge bus dev (suc k)) (more p mem phys_offset bridge bus dev b)
  more-In bridge bus dev k true e lt h = cc
  more-In bridge bus dev k false e lt h =
      In-gather _ 7 1 (suc k) (kept p mem phys_offset bridge bus dev) (omega arith) (omega arith)
        (kept-In bridge bus dev (suc k) h)

  In-more :
      (bridge : McfgEntry) (bus dev a : ℕ) (b : Bool)
      → In a (more p mem phys_offset bridge bus dev b)
      → (b ≡ false)
        × (function : ℕ) × (function < 8)
        × ((from_addr mem (address phys_offset bridge bus dev function)).vendor_id ≢ 0xFFFF)
        × (a ≡ address phys_offset bridge bus dev function)
  In-more bridge bus dev a true h = elim h [ ]
  In-more bridge bus dev a false h =
      let (i, lo, hi, l) = gather-In a 7 1 (kept p mem phys_offset bridge bus dev) h in
      let k = In-kept bridge bus dev i a l in (refl, i, omega arith, k.0, k.1)

  slot-In :
      (bridge : McfgEntry) (bus dev function : ℕ)
      → function < 8
      → IsFunction mem phys_offset bridge bus dev function
      → In (address phys_offset bridge bus dev function) (slot p mem phys_offset bridge bus dev)
  slot-In bridge bus dev function lt (general, answers, which) =
      let first = address phys_offset bridge bus dev 0 in
      let t = (from_addr mem first).header_type in
      let rest = first ∷ more p mem phys_offset bridge bus dev (t / 0x80 % 2 == 0) in
      let it = address phys_offset bridge bus dev function in
      if_true-In it (t % 0x80 == 0) (if (from_addr mem first).vendor_id == 0xFFFF then [] else rest)
        [] ((==_iff (t % 0x80) 0).1 general)
        (if_false-In it ((from_addr mem first).vendor_id == 0xFFFF) [] rest (≢→== _ _ answers)
          (member function lt which))
    where
      member :
          (function : ℕ)
          → function < 8
          → (function ≡ 0)
            ⊎ (((from_addr mem (address phys_offset bridge bus dev 0)).header_type / 0x80 % 2 ≢ 0)
                × ((from_addr mem (address phys_offset bridge bus dev function)).vendor_id
                    ≢ 0xFFFF))
          → In (address phys_offset bridge bus dev function) (
              address phys_offset bridge bus dev 0
              ∷ more p mem phys_offset bridge bus dev (
                  (from_addr mem (address phys_offset bridge bus dev 0)).header_type / 0x80 % 2
                  == 0))
      member zero l w = here refl
      member (suc k) l (inl e) = absurd (omega arith)
      member (suc k) l (inr (multi, h)) = there (more-In bridge bus dev k _ (≢→== _ _ multi) l h)

  In-slot :
      (bridge : McfgEntry) (bus dev a : ℕ)
      → In a (slot p mem phys_offset bridge bus dev)
      → (function : ℕ) × (function < 8)
        × IsFunction mem phys_offset bridge bus dev function
        × (a ≡ address phys_offset bridge bus dev function)
  In-slot bridge bus dev a h =
      let first = address phys_offset bridge bus dev 0 in
      let t = (from_addr mem first).header_type in
      let v = (from_addr mem first).vendor_id in
      let rest = first ∷ more p mem phys_offset bridge bus dev (t / 0x80 % 2 == 0) in
      elim (In-if a (t % 0x80 == 0) (if v == 0xFFFF then [] else rest) [] h) [
        | inr (e, none) ↦ elim none [ ]
        | inl (general, l) ↦ elim (In-if a (v == 0xFFFF) [] rest l) [
          | inl (e, none) ↦ elim none [ ]
          | inr (answers, m) ↦ member ((==_iff (t % 0x80) 0).0 general) (==→≢ _ _ answers) m
        ]
      ]
    where
      member :
          ((from_addr mem (address phys_offset bridge bus dev 0)).header_type % 0x80 ≡ 0)
          → ((from_addr mem (address phys_offset bridge bus dev 0)).vendor_id ≢ 0xFFFF)
          → In a (
              address phys_offset bridge bus dev 0
              ∷ more p mem phys_offset bridge bus dev (
                  (from_addr mem (address phys_offset bridge bus dev 0)).header_type / 0x80 % 2
                  == 0))
          → (function : ℕ) × (function < 8)
            × IsFunction mem phys_offset bridge bus dev function
            × (a ≡ address phys_offset bridge bus dev function)
      member general answers (here e) = (0, omega arith, (general, answers, inl refl), e)
      member general answers (there m) =
          let (multi, k, lt, ok', e) = In-more bridge bus dev a _ m in
          (k, lt, (general, answers, inr (==→≢ _ _ multi, ok')), e)

  bridge-In :
      (bridge : McfgEntry) (a : ℕ)
      → IsOn mem phys_offset bridge a
      → In a (bridge_functions p mem phys_offset bridge)
  bridge-In bridge a (bus, dev, function, lo, hi, d, f, is, e) =
      subst (λ x. In x (bridge_functions p mem phys_offset bridge)) (sym e)
        (In-gather _ _ bridge.start_bus bus (bus_functions p mem phys_offset bridge) lo
          (omega arith)
          (In-gather _ 32 0 dev (slot p mem phys_offset bridge bus) (omega arith) d
            (slot-In bridge bus dev function f is)))

  In-bridge :
      (bridge : McfgEntry) (a : ℕ)
      → In a (bridge_functions p mem phys_offset bridge)
      → IsOn mem phys_offset bridge a
  In-bridge bridge a h =
      let (bus, lo, hi, l) =
        gather-In a _ bridge.start_bus (bus_functions p mem phys_offset bridge) h in
      let (dev, _, d, m) = gather-In a 32 0 (slot p mem phys_offset bridge bus) l in
      let (function, f, is, e) = In-slot bridge bus dev a m in
      (bus, dev, function, lo, omega arith, d, f, is, e)

  all-In :
      (entries : List McfgEntry) (bridge : McfgEntry) (a : ℕ)
      → In bridge entries
      → IsOn mem phys_offset bridge a
      → In a (all_functions p mem phys_offset entries)
  all-In [] bridge a h on = elim h [ ]
  all-In (b ∷ rest) bridge a (here e) on =
      In-append_left a (bridge_functions p mem phys_offset b) (all_functions p mem phys_offset rest)
        (bridge-In b a (subst (λ x. IsOn mem phys_offset x a) e on))
  all-In (b ∷ rest) bridge a (there h) on =
      In-append_right a (bridge_functions p mem phys_offset b)
        (all_functions p mem phys_offset rest) (all-In rest bridge a h on)

  In-all :
      (entries : List McfgEntry) (a : ℕ)
      → In a (all_functions p mem phys_offset entries)
      → (bridge : McfgEntry) × In bridge entries × IsOn mem phys_offset bridge a
  In-all [] a h = elim h [ ]
  In-all (b ∷ rest) a h =
      elim (In-append a (bridge_functions p mem phys_offset b)
        (all_functions p mem phys_offset rest) h) [
          | inl l ↦ (b, here refl, In-bridge b a l)
          | inr r ↦ let (bridge, i, on) = In-all rest a r in (bridge, there i, on)
        ]

  -- If every entry's configuration space fits into the 64-bit address space behind the offset, its
  -- bus numbers are bytes and every first function has a header type that the code knows, then the
  -- enumeration ends without a panic, in a list of exactly the functions 0 to 7 of the devices 0 to
  -- 31 of the buses from an entry's `start_bus` to before its `end_bus` that are there: function 0
  -- has a general header and a vendor, and another function has a vendor and a function 0 that is
  -- there and marks a multi-function device.
  pub enumerate_bus-IsOn :
      (entries : List McfgEntry)
      → All (IsSound p mem phys_offset) entries
      → (devices : List ℕ) × (enumerate_bus p mem phys_offset entries ≡ ok devices)
        × ((a : ℕ)
            → In a devices
              ↔ (bridge : McfgEntry) × In bridge entries × IsOn mem phys_offset bridge a)
  unfolding enumerate_bus
  enumerate_bus-IsOn entries s = (
    all_functions p mem phys_offset entries,
    check_bridges-ok p mem phys_offset entries [] s,
    λ a. (In-all entries a, λ (bridge, i, on). all-In entries bridge a i on),
  )
