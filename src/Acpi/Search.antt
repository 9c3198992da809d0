-- ===== src/Acpi/Search.antt =====
-- The search for the RSDP finds the first one.
use mathlib.Core.Path.{subst, sym}
use lobster_os_legacy.Prelude.{
  ℕ, zero, suc, ◌+◌, ◌*◌, ◌<◌, ◌≡◌, refl, ap, ◌∙◌, Bool, true, false, ◌&&◌, if◌then◌else◌, some, ok,
  ◌>>=◌, Profile, add_mod-ok, u64_mod, bytes_at, Bool-cases, inl, inr, arith,
}
use lobster_os_legacy.Acpi.{
  rsdp_at, verify_checksum, rsd_ptr, same_bytes, rsdp_region_start, rsdp_region_steps, scan,
  find_rsdp,
}

-- The signature and a checksum of 0.
abbrev pub is_rsdp : (ℕ → ℕ) → ℕ → Bool
is_rsdp mem a = same_bytes (bytes_at mem 8 a) rsd_ptr && verify_checksum mem a

module _ (p : Profile) (mem : ℕ → ℕ) (off : ℕ) where
  pass :
      (n phys : ℕ)
      → off + phys < u64_mod
      → is_rsdp mem (off + phys) ≡ false
      → scan p mem off (suc n) phys ≡ scan p mem off n (phys + 0x10)
  unfolding scan
  pass n phys fits missed =
      rw (add_mod-ok p u64_mod off phys fits, ◌>>=◌)
        (elim (Bool-cases (same_bytes (bytes_at mem 8 (off + phys)) rsd_ptr)) [
          | inr other ↦ rw (other, if◌then◌else◌) refl
          | inl signed ↦ elim (Bool-cases (verify_checksum mem (off + phys))) [
            | inr bad ↦ rw (signed, bad, if◌then◌else◌) refl
            | inl good ↦ absurd (both _ _ signed good missed)
          ]
        ])
    where
      both : (a b : Bool) → a ≡ true → b ≡ true → (a && b) ≡ false → ⊥
      both true true e f g = cc
      both true false e f g = cc
      both false b e f g = cc

  stop :
      (n phys : ℕ)
      → off + phys < u64_mod
      → is_rsdp mem (off + phys) ≡ true
      → (rsdp_at mem (off + phys)).revision ≡ 0
      → scan p mem off (suc n) phys ≡ ok (some (off + phys))
  unfolding scan
  stop n phys fits found old =
      let (signed, good) =
        both (same_bytes (bytes_at mem 8 (off + phys)) rsd_ptr) (verify_checksum mem (off + phys))
          found in
      rw (add_mod-ok p u64_mod off phys fits, ◌>>=◌, signed, good, old, if◌then◌else◌) refl
    where
      both : (a b : Bool) → (a && b) ≡ true → (a ≡ true) × (b ≡ true)
      both true true e = (refl, refl)
      both true false e = cc
      both false b e = cc

  scan_first :
      (n k phys : ℕ)
      → k < n
      → off + phys + n * 0x10 < u64_mod
      → ((j : ℕ) → j < k → is_rsdp mem (off + (phys + j * 0x10)) ≡ false)
      → is_rsdp mem (off + (phys + k * 0x10)) ≡ true
      → (rsdp_at mem (off + (phys + k * 0x10))).revision ≡ 0
      → scan p mem off n phys ≡ ok (some (off + (phys + k * 0x10)))
  scan_first zero k phys lt fits before found old = absurd (omega arith)
  scan_first (suc n) zero phys lt fits before found old =
      let here : phys + 0 * 0x10 ≡ phys = omega arith in
      rw here (
        stop n phys (omega arith) (subst (λ a. is_rsdp mem (off + a) ≡ true) here found)
          (subst (λ a. (rsdp_at mem (off + a)).revision ≡ 0) here old))
  scan_first (suc n) (suc k) phys lt fits before found old =
      let here : phys + 0 * 0x10 ≡ phys = omega arith in
      let later : (j : ℕ) → phys + suc j * 0x10 ≡ phys + 0x10 + j * 0x10 = λ j. omega arith in
      pass n phys (omega arith)
        (subst (λ a. is_rsdp mem (off + a) ≡ false) here (before 0 (omega arith)))
      ∙ scan_first n k (phys + 0x10) (omega arith) (omega arith)
          (λ j h.
            subst (λ a. is_rsdp mem (off + a) ≡ false) (later j) (before (suc j) (omega arith)))
          (subst (λ a. is_rsdp mem (off + a) ≡ true) (later k) found)
          (subst (λ a. (rsdp_at mem (off + a)).revision ≡ 0) (later k) old)
      ∙ ap (λ a. ok (some (off + a))) (sym (later k))

  -- If the `k`-th place of the region, in steps of 16 bytes, is the first with the signature and a
  -- good checksum, its revision is 0 and the region lies in the 64-bit address space behind the
  -- offset, then `find_rsdp` ends without a panic and gives the address of that place.
  pub find_rsdp-first :
      (k : ℕ)
      → k < rsdp_region_steps
      → off + 0x100000 < u64_mod
      → ((j : ℕ) → j < k → is_rsdp mem (off + (rsdp_region_start + j * 0x10)) ≡ false)
      → is_rsdp mem (off + (rsdp_region_start + k * 0x10)) ≡ true
      → (rsdp_at mem (off + (rsdp_region_start + k * 0x10))).revision ≡ 0
      → find_rsdp p mem off ≡ ok (some (off + (rsdp_region_start + k * 0x10)))
  unfolding find_rsdp
  find_rsdp-first k lt fits before found old =
      scan_first rsdp_region_steps k rsdp_region_start lt (omega arith) before found old
