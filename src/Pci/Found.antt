-- ===== src/Pci/Found.antt =====
-- Which functions the enumeration finds.
use Prim.Native.Nat.{bit_or}
use mathlib.Core.List.{append_assoc, append-nil}
use lobster_os_legacy.Prelude.{
  ℕ, zero, suc, ◌+◌, ◌*◌, ◌-◌, ◌/◌, ◌%◌, ◌^◌, ◌≤◌, ◌<◌, ◌≡◌, inl, inr, refl, sym, ap, ◌∙◌, List, [],
  ◌∷◌, ◌++◌, Bool, true, false, ◌==◌, if◌then◌else◌, Run, ok, ◌>>=◌, Profile, add_mod-ok, u64_mod,
  bit_or-add, gather, All, arith, none, some, Option, Bool-cases,
}
use lobster_os_legacy.Pci.{
  from, check_function, config_addr, check_functions, check_device, check_devices, check_buses,
  check_bridges, of_type, check_type, DeviceType, device, pci_bridge, cardbus_bridge,
}
use lobster_os_legacy.Pci.Config.{McfgEntry, from_addr}

module _ (phys_offset : ℕ) where
  -- The address that the specification gives a function's configuration space.
  abbrev pub address : McfgEntry → ℕ → ℕ → ℕ → ℕ
  address bridge bus dev function =
      phys_offset + bridge.config_space + (bus * 2 ^ 20 + dev * 2 ^ 15 + function * 2 ^ 12)

module _ (p : Profile) (mem : ℕ → ℕ) (phys_offset : ℕ) where
  pub config_addr-ok :
      (bridge : McfgEntry) (bus dev function : ℕ)
      → phys_offset + bridge.config_space + 2 ^ 28 ≤ u64_mod
      → bus < 256
      → dev < 32
      → function < 8
      → config_addr p mem phys_offset bridge bus dev function
        ≡ ok (address phys_offset bridge bus dev function)
  unfolding config_addr
  config_addr-ok bridge bus dev function fits b d f =
      let low = bit_or-add 20 bus (dev * 2 ^ 15) (omega arith) in
      let all = bit_or-add 15 (bus * 2 ^ 5 + dev) (function * 2 ^ 12) (omega arith) in
      let same : bus * 2 ^ 20 + dev * 2 ^ 15 ≡ (bus * 2 ^ 5 + dev) * 2 ^ 15 = omega arith in
      let offset : bit_or (bit_or (bus * 2 ^ 20) (dev * 2 ^ 15)) (function * 2 ^ 12)
          ≡ bus * 2 ^ 20 + dev * 2 ^ 15 + function * 2 ^ 12 =
        ap (λ x. bit_or x (function * 2 ^ 12)) (low ∙ same) ∙ omega arith in
      rw (offset, add_mod-ok p u64_mod phys_offset bridge.config_space (omega arith), ◌>>=◌)
        (add_mod-ok p u64_mod (phys_offset + bridge.config_space)
          (bus * 2 ^ 20 + dev * 2 ^ 15 + function * 2 ^ 12) (omega arith))

  abbrev pub vendor : ℕ → ℕ
  vendor a = (from_addr mem a).vendor_id

  abbrev pub header_type : ℕ → ℕ
  header_type a = (from_addr mem a).header_type

  abbrev pub kept : McfgEntry → ℕ → ℕ → ℕ → List ℕ
  kept bridge bus dev function =
      let a = address phys_offset bridge bus dev function in
      if vendor a == 0xFFFF then [] else (a ∷ [])

  abbrev pub more : McfgEntry → ℕ → ℕ → Bool → List ℕ
  more bridge bus dev true = []
  more bridge bus dev false = gather 7 1 (kept bridge bus dev)

  -- The functions of one device.
  abbrev pub slot : McfgEntry → ℕ → ℕ → List ℕ
  slot bridge bus dev =
      let a = address phys_offset bridge bus dev 0 in
      if header_type a % 0x80 == 0
      then (if vendor a == 0xFFFF
          then []
          else (a ∷ more bridge bus dev (header_type a / 0x80 % 2 == 0)))
      else []

  -- The masked header type of every device is one that the code knows.
  abbrev pub IsKnown : McfgEntry → Type 0
  IsKnown bridge =
      (bus dev : ℕ)
      → bus < 256
      → dev < 32
      → (t : Option DeviceType) × (from mem (address phys_offset bridge bus dev 0) ≡ ok t)

  abbrev pub IsSound : McfgEntry → Type 0
  IsSound bridge =
      (phys_offset + bridge.config_space + 2 ^ 28 ≤ u64_mod)
      × (bridge.start_bus < 256)
      × (bridge.end_bus < 256)
      × IsKnown bridge

  check_functions-ok :
      (bridge : McfgEntry) (bus dev n k : ℕ) (ds : List ℕ)
      → phys_offset + bridge.config_space + 2 ^ 28 ≤ u64_mod
      → bus < 256
      → dev < 32
      → k + n ≤ 8
      → check_functions p mem phys_offset n k ds bridge bus dev
        ≡ ok (ds ++ gather n k (kept bridge bus dev))
  unfolding check_functions gather check_function
  check_functions-ok bridge bus dev zero k ds fits b d h = ap ok (sym (append-nil ds))
  check_functions-ok bridge bus dev (suc n) k ds fits b d h =
      rw (config_addr-ok bridge bus dev k fits b d (omega arith), ◌>>=◌)
        (elim (Bool-cases (vendor (address phys_offset bridge bus dev k) == 0xFFFF)) [
          | inl e ↦
              rw (e, if◌then◌else◌)
                (check_functions-ok bridge bus dev n (k + 1) ds fits b d (omega arith))
          | inr e ↦
              rw (e, if◌then◌else◌)
                (check_functions-ok bridge bus dev n (k + 1)
                    (ds ++ (address phys_offset bridge bus dev k ∷ [])) fits b d (omega arith)
                  ∙ ap ok (
                      append_assoc ds (address phys_offset bridge bus dev k ∷ [])
                        (gather n (k + 1) (kept bridge bus dev))))
        ])

  abbrev devices_in : Run (Option DeviceType) → ℕ
  devices_in (ok (some (device x))) = 1
  devices_in r = 0

  no_device : (a h : ℕ) → (h == 0) ≡ false → devices_in (of_type a h) ≡ 0
  no_device a h z = ground arith

  no_slot :
      (bridge : McfgEntry) (bus dev : ℕ)
      → (header_type (address phys_offset bridge bus dev 0) % 0x80 == 0) ≡ false
      → slot bridge bus dev ≡ []
  no_slot bridge bus dev z = rw (z, if◌then◌else◌) refl

  other_type :
      (bridge : McfgEntry) (bus dev : ℕ) (ds : List ℕ) (a h : ℕ) (t : Option DeviceType)
      → of_type a h ≡ ok t
      → (h == 0) ≡ false
      → check_type p mem phys_offset ds bridge bus dev t ≡ ok ds
  other_type bridge bus dev ds a h none e z = refl
  other_type bridge bus dev ds a h (some pci_bridge) e z = refl
  other_type bridge bus dev ds a h (some cardbus_bridge) e z = refl
  other_type bridge bus dev ds a h (some (device x)) e z =
      absurd (omega (arith, sym (ap devices_in e) ∙ no_device a h z))

  check_device-ok :
      (bridge : McfgEntry) (bus dev : ℕ) (ds : List ℕ)
      → IsSound bridge
      → bus < 256
      → dev < 32
      → check_device p mem phys_offset ds bridge bus dev ≡ ok (ds ++ slot bridge bus dev)
  unfolding check_device from check_function
  check_device-ok bridge bus dev ds s b d =
      let a = address phys_offset bridge bus dev 0 in
      let (t, e) = s.3 bus dev b d in
      rw (config_addr-ok bridge bus dev 0 s.0 b d (omega arith), ◌>>=◌)
        (elim (Bool-cases (header_type a % 0x80 == 0)) [
          | inr other ↦
              ap (λ r. r >>= check_type p mem phys_offset ds bridge bus dev) e
              ∙ other_type bridge bus dev ds a (header_type a % 0x80) t e other
              ∙ ap ok (sym (append-nil ds))
              ∙ ap (λ l. ok (ds ++ l)) (sym (no_slot bridge bus dev other))
          | inl general ↦
              rw (general, if◌then◌else◌, ◌>>=◌)
                (elim (Bool-cases (vendor a == 0xFFFF)) [
                  | inl absent ↦ rw (absent, if◌then◌else◌) (ap ok (sym (append-nil ds)))
                  | inr there ↦
                      rw (there, if◌then◌else◌)
                        (elim (Bool-cases (header_type a / 0x80 % 2 == 0)) [
                          | inl single ↦ rw (single, if◌then◌else◌, more) refl
                          | inr multi ↦
                              rw (multi, if◌then◌else◌, more)
                                (check_functions-ok bridge bus dev 7 1 (ds ++ (a ∷ [])) s.0 b d
                                    (omega arith)
                                  ∙ ap ok
                                      (append_assoc ds (a ∷ []) (gather 7 1 (kept bridge bus dev))))
                        ])
                ])
        ])

  check_devices-ok :
      (bridge : McfgEntry) (bus n k : ℕ) (ds : List ℕ)
      → IsSound bridge
      → bus < 256
      → k + n ≤ 32
      → check_devices p mem phys_offset n k ds bridge bus ≡ ok (ds ++ gather n k (slot bridge bus))
  unfolding check_devices gather
  check_devices-ok bridge bus zero k ds s b h = ap ok (sym (append-nil ds))
  check_devices-ok bridge bus (suc n) k ds s b h =
      rw (check_device-ok bridge bus k ds s b (omega arith), ◌>>=◌)
        (check_devices-ok bridge bus n (k + 1) (ds ++ slot bridge bus k) s b (omega arith)
          ∙ ap ok (append_assoc ds (slot bridge bus k) (gather n (k + 1) (slot bridge bus))))

  abbrev pub bus_functions : McfgEntry → ℕ → List ℕ
  bus_functions bridge bus = gather 32 0 (slot bridge bus)

  check_buses-ok :
      (bridge : McfgEntry) (n k : ℕ) (ds : List ℕ)
      → IsSound bridge
      → k + n ≤ 256
      → check_buses p mem phys_offset n k ds bridge ≡ ok (ds ++ gather n k (bus_functions bridge))
  unfolding check_buses gather
  check_buses-ok bridge zero k ds s h = ap ok (sym (append-nil ds))
  check_buses-ok bridge (suc n) k ds s h =
      rw (check_devices-ok bridge k 32 0 ds s (omega arith) (omega arith), ◌>>=◌)
        (check_buses-ok bridge n (k + 1) (ds ++ bus_functions bridge k) s (omega arith)
          ∙ ap ok
              (append_assoc ds (bus_functions bridge k) (gather n (k + 1) (bus_functions bridge))))

  abbrev pub bridge_functions : McfgEntry → List ℕ
  bridge_functions bridge =
      gather (bridge.end_bus - bridge.start_bus) bridge.start_bus (bus_functions bridge)

  abbrev pub all_functions : List McfgEntry → List ℕ
  all_functions [] = []
  all_functions (bridge ∷ rest) = bridge_functions bridge ++ all_functions rest

  pub check_bridges-ok :
      (entries : List McfgEntry) (ds : List ℕ)
      → All IsSound entries
      → check_bridges p mem phys_offset ds entries ≡ ok (ds ++ all_functions entries)
  unfolding check_bridges
  check_bridges-ok [] ds s = ap ok (sym (append-nil ds))
  check_bridges-ok (bridge ∷ rest) ds s =
      rw
        (
          check_buses-ok bridge (bridge.end_bus - bridge.start_bus) bridge.start_bus ds s.0
              (omega arith),
          ◌>>=◌,
        )
        (check_bridges-ok rest (ds ++ bridge_functions bridge) s.1
          ∙ ap ok (append_assoc ds (bridge_functions bridge) (all_functions rest)))
