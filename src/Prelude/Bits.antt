-- ===== src/Prelude/Bits.antt =====
-- The binary or of numbers whose bits do not overlap is their sum.
use Prim.Native.Nat.{
  ℕ, zero, suc, ◌+◌, ◌*◌, ◌/◌, ◌^◌, ◌≤◌, ◌<◌, max, digits, bit_or, bit_or-bitwise,
}
use mathlib.Core.Path.{◌≡◌, refl, ap, sym, ◌∙◌}
use native.Mathlib.Nat.{mul_assoc}
use native.Mathlib.Omega.{arith}

-- The recursion that `bit_or` stands for, with a count of digits to go.
abbrev ored : ℕ → ℕ → ℕ → ℕ
ored count = digits (λ rest. rest) max count

twice : (k a : ℕ) → a * 2 ^ suc k ≡ a * 2 ^ k * 2
twice k a =
    let double : 2 ^ suc k ≡ 2 ^ k * 2 = omega arith in
    ap (λ c. a * c) double ∙ sym (mul_assoc a (2 ^ k) 2)

ored-high :
    (count k a high low : ℕ)
    → high ≡ a * 2 ^ k
    → high ≤ count
    → low < 2 ^ k
    → ored count high low ≡ high + low
ored-high zero k a high low e h l = omega arith
ored-high (suc count) k a zero low e h l = omega arith
ored-high (suc count) zero a (suc m) low e h l =
    let rest =
      ored-high count zero (suc m / 2) (suc m / 2) (low / 2) (omega arith) (omega arith)
        (omega arith) in
    omega arith
ored-high (suc count) (suc k) a (suc m) low e h l =
    let split = twice k a in
    let rest =
      ored-high count k a (suc m / 2) (low / 2) (omega arith) (omega arith) (omega arith) in
    omega arith

ored-low :
    (count k a high low : ℕ)
    → high ≡ a * 2 ^ k
    → low ≤ count
    → low < 2 ^ k
    → ored count low high ≡ high + low
ored-low zero k a high low e h l = omega arith
ored-low (suc count) k a high zero e h l = omega arith
ored-low (suc count) zero a high (suc m) e h l = absurd (omega arith)
ored-low (suc count) (suc k) a high (suc m) e h l =
    let split = twice k a in
    let rest =
      ored-low count k a (high / 2) (suc m / 2) (omega arith) (omega arith) (omega arith) in
    omega arith

module _ (k a b : ℕ) (below : b < 2 ^ k) where
  pub bit_or-add : bit_or (a * 2 ^ k) b ≡ a * 2 ^ k + b
  bit_or-add =
      bit_or-bitwise (a * 2 ^ k) b
      ∙ ored-high (a * 2 ^ k) k a (a * 2 ^ k) b refl (omega arith) below

  pub bit_or-add' : bit_or b (a * 2 ^ k) ≡ a * 2 ^ k + b
  bit_or-add' = bit_or-bitwise b (a * 2 ^ k) ∙ ored-low b k a (a * 2 ^ k) b refl (omega arith) below
