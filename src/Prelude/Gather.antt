-- ===== src/Prelude/Gather.antt =====
-- Membership as a type that computes, and the concatenation of the lists that a loop over a range of
-- numbers, or over a list, appends.
use Prim.Native.Nat.{ℕ, zero, suc, ◌+◌, ◌≤◌, ◌<◌}
use mathlib.Core.Path.{◌≡◌, subst, refl}
use mathlib.Core.Logic.{◌⊎◌, inl, inr}
use mathlib.Core.List.{List, [], ◌∷◌, ◌++◌}
use mathlib.Core.Bool.{Bool, true, false}
use lobster_os_legacy.Prelude.Tests.{if◌then◌else◌}
use native.Mathlib.Omega.{arith}

module _ {ℓ} {A : Type ℓ} where
  pub data In (a : A) : List A → Type ℓ where
    here : {x : A} {xs : List A} → a ≡ x → In a (x ∷ xs)
    there : {x : A} {xs : List A} → In a xs → In a (x ∷ xs)

  pub In-append_left : (a : A) (xs ys : List A) → In a xs → In a (xs ++ ys)
  In-append_left a [] ys h = elim h [ ]
  In-append_left a (x ∷ xs) ys (here e) = here e
  In-append_left a (x ∷ xs) ys (there h) = there (In-append_left a xs ys h)

  pub In-append_right : (a : A) (xs ys : List A) → In a ys → In a (xs ++ ys)
  In-append_right a [] ys h = h
  In-append_right a (x ∷ xs) ys h = there (In-append_right a xs ys h)

  pub In-append : (a : A) (xs ys : List A) → In a (xs ++ ys) → In a xs ⊎ In a ys
  In-append a [] ys h = inr h
  In-append a (x ∷ xs) ys (here e) = inl (here e)
  In-append a (x ∷ xs) ys (there h) = elim (In-append a xs ys h) [
    | inl l ↦ inl (there l)
    | inr r ↦ inr r
  ]

  pub In-if :
      (a : A) (b : Bool) (xs ys : List A)
      → In a (if b then xs else ys)
      → ((b ≡ true) × In a xs) ⊎ ((b ≡ false) × In a ys)
  In-if a true xs ys h = inl (refl, h)
  In-if a false xs ys h = inr (refl, h)

  pub if_true-In :
      (a : A) (b : Bool) (xs ys : List A) → b ≡ true → In a xs → In a (if b then xs else ys)
  if_true-In a true xs ys e h = h
  if_true-In a false xs ys e h = cc

  pub if_false-In :
      (a : A) (b : Bool) (xs ys : List A) → b ≡ false → In a ys → In a (if b then xs else ys)
  if_false-In a true xs ys e h = cc
  if_false-In a false xs ys e h = h

  pub In-single : (a x : A) → In a (x ∷ []) → a ≡ x
  In-single a x (here e) = e
  In-single a x (there h) = elim h [ ]

  -- `f k ++ f (k + 1) ++ …`, of `n` lists.
  unfoldable pub gather : ℕ → ℕ → (ℕ → List A) → List A
  gather zero k f = []
  gather (suc n) k f = f k ++ gather n (k + 1) f

  pub In-gather :
      (a : A) (n k i : ℕ) (f : ℕ → List A) → k ≤ i → i < k + n → In a (f i) → In a (gather n k f)
  unfolding gather
  In-gather a zero k i f lo hi h = absurd (omega arith)
  In-gather a (suc n) k i f lo hi h = elim (first_or_later) [
    | inl e ↦ In-append_left a (f k) (gather n (k + 1) f) (subst (λ j. In a (f j)) e h)
    | inr l ↦
        In-append_right a (f k) (gather n (k + 1) f)
          (In-gather a n (k + 1) i f (omega arith) (omega arith) h)
  ]
    where
      first_or_later : (i ≡ k) ⊎ (k < i)
      first_or_later = omega arith

  pub gather-In :
      (a : A) (n k : ℕ) (f : ℕ → List A)
      → In a (gather n k f)
      → (i : ℕ) × (k ≤ i) × (i < k + n) × In a (f i)
  unfolding gather
  gather-In a zero k f h = elim h [ ]
  gather-In a (suc n) k f h = elim (In-append a (f k) (gather n (k + 1) f) h) [
    | inl l ↦ (k, omega arith, omega arith, l)
    | inr r ↦ let (i, lo, hi, l) = gather-In a n (k + 1) f r in (i, omega arith, omega arith, l)
  ]
