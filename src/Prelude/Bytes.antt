-- ===== src/Prelude/Bytes.antt =====
-- Memory as bytes by address, and the little-endian fields that packed structures are read from.
use Prim.Native.Nat.{ℕ, zero, suc, ◌+◌, ◌*◌}
use mathlib.Core.List.{List, [], ◌∷◌}

-- The number in the `n` bytes from an address on.
unfoldable pub le_bytes : (ℕ → ℕ) → ℕ → ℕ → ℕ
le_bytes mem zero a = 0
le_bytes mem (suc n) a = mem a + 0x100 * le_bytes mem n (a + 1)

abbrev pub u8_at : (ℕ → ℕ) → ℕ → ℕ
u8_at mem a = mem a

abbrev pub u16_at : (ℕ → ℕ) → ℕ → ℕ
u16_at mem a = le_bytes mem 2 a

abbrev pub u32_at : (ℕ → ℕ) → ℕ → ℕ
u32_at mem a = le_bytes mem 4 a

abbrev pub u64_at : (ℕ → ℕ) → ℕ → ℕ
u64_at mem a = le_bytes mem 8 a

-- The `n` bytes from an address on.
unfoldable pub bytes_at : (ℕ → ℕ) → ℕ → ℕ → List ℕ
bytes_at mem zero a = []
bytes_at mem (suc n) a = mem a ∷ bytes_at mem n (a + 1)
