-- ===== src/Prelude/Results.antt =====
-- What a run of Rust code comes to: a value, a panic, or, for a loop modelled on fuel, no end
-- within the fuel. Machine integers are native numbers below their modulus, and `+=` and `-=`
-- depend on the build: with overflow checks (the development profile) they panic, without them
-- (the release profile) they wrap.
use Prim.Native.Nat.{ℕ, zero, suc, ◌*◌, ◌/◌, ◌+◌, ◌-◌, ◌%◌, ◌^◌, ◌<◌, ◌≤◌, compare, Ordering}
use mathlib.Core.Path.{◌≡◌}
use mathlib.Core.Bool.{Bool, true, false}
use mathlib.Core.Option.{Option, none, some}
use native.Mathlib.Omega.{arith}

pub data Run {ℓ} (A : Type ℓ) : Type ℓ where
  ok : A → Run A
  panic : Run A
  out_of_fuel : Run A

infixl 5 ◌>>=◌
abbrev pub ◌>>=◌ {ℓ κ} : {A : Type ℓ} {B : Type κ} → Run A → (A → Run B) → Run B
ok a >>= f = f a
panic >>= f = panic
out_of_fuel >>= f = out_of_fuel

-- `expect` and `unwrap`.
abbrev pub expect {ℓ} : {A : Type ℓ} → Option A → Run A
expect none = panic
expect (some a) = ok a

pub data Profile : Type 0 where
  debug release : Profile

abbrev pub wrapping : Profile → Bool → ℕ → ℕ → Run ℕ
wrapping _ true exact wrapped = ok exact
wrapping debug false exact wrapped = panic
wrapping release false exact wrapped = ok wrapped

-- `a + b` and `a - b` on an unsigned integer of the given modulus.
abbrev pub add_mod : Profile → ℕ → ℕ → ℕ → Run ℕ
add_mod p m a b =
    wrapping p (elim (compare (a + b) m) [ Ordering.lt ↦ true | _ ↦ false ]) (a + b) ((a + b) % m)

abbrev pub sub_mod : Profile → ℕ → ℕ → ℕ → Run ℕ
sub_mod p m a b =
    wrapping p (elim (compare b a) [ Ordering.gt ↦ false | _ ↦ true ]) (a - b) ((a + m - b) % m)

abbrev pub mul_mod : Profile → ℕ → ℕ → ℕ → Run ℕ
mul_mod p m a b =
    wrapping p (elim (compare (a * b) m) [ Ordering.lt ↦ true | _ ↦ false ]) (a * b) ((a * b) % m)

-- Division panics at 0.
abbrev pub checked_div : ℕ → ℕ → Run ℕ
checked_div a zero = panic
checked_div a (suc b) = ok (a / suc b)

abbrev pub u16_mod : ℕ
u16_mod = 2 ^ 16

abbrev pub u32_mod : ℕ
u32_mod = 2 ^ 32

-- Of `u64` and `usize`.
abbrev pub u64_mod : ℕ
u64_mod = 2 ^ 64

module _ (p : Profile) (m a b : ℕ) where
  -- Within range both profiles give the exact sum and difference.
  pub add_mod-ok : a + b < m → add_mod p m a b ≡ ok (a + b)
  add_mod-ok h = ground arith

  pub mul_mod-ok : a * b < m → mul_mod p m a b ≡ ok (a * b)
  mul_mod-ok h = ground arith

  pub sub_mod-ok : b ≤ a → sub_mod p m a b ≡ ok (a - b)
  sub_mod-ok h = ground arith
