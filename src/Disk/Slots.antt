-- ===== src/Disk/Slots.antt =====
-- Which command slot is chosen.
use Prim.Native.Nat.{bit_or, bit_and, bit_and-bitwise, digits, min}
use lobster_os_legacy.Prelude.{
  ℕ, zero, suc, ◌+◌, ◌-◌, ◌*◌, ◌/◌, ◌%◌, ◌^◌, ◌≤◌, ◌<◌, ◌≡◌, ◌⊎◌, inl, inr, refl, ap, Option, none,
  some, false, ◌==◌, ==_iff, ==→≢, Bool-cases, Run, ok, ◌>>=◌, Profile, debug, release, arith, List,
  get_elem?, expect, panic, u32_mod,
}
use lobster_os_legacy.Disk.{AhciPort}
use lobster_os_legacy.Disk.Layout.{
  offset_of, hba, register_addr, sata_active, command_issue, interrupt_status,
}
use lobster_os_legacy.Disk.Port.{Hardware}
use lobster_os_legacy.Disk.Transfer.{
  shift_right, free_slot, find_command_slot, open_slot, read_sectors,
}

shift_right-ok : (p : Profile) (slots i : ℕ) → i < 32 → shift_right p slots i ≡ ok (slots / 2 ^ i)
shift_right-ok debug slots i h = let e : i / 32 ≡ 0 = omega arith in rw e refl
shift_right-ok release slots i h = let e : i % 32 ≡ i = omega arith in rw e refl

-- The bit of a slot.
abbrev pub slot_bit : ℕ → ℕ → ℕ
slot_bit slots i = slots / 2 ^ i % 2

-- The lowest slot from `i` on whose bit is clear, or none is.
abbrev pub Lowest : ℕ → ℕ → ℕ → Option ℕ → Type 0
Lowest slots n i r =
    ((s : ℕ) × (r ≡ some s)
      × (i ≤ s)
      × (s < i + n)
      × (slot_bit slots s ≡ 0)
      × ((j : ℕ) → i ≤ j → j < s → slot_bit slots j ≡ 1))
    ⊎ ((r ≡ none) × ((j : ℕ) → i ≤ j → j < i + n → slot_bit slots j ≡ 1))

-- Of at most 32 slots, the search gives the lowest one whose bit is clear, and none exactly if every
-- bit is set; it does not panic.
pub free_slot-Lowest :
    (p : Profile) (slots n i : ℕ)
    → i + n ≤ 32
    → (r : Option ℕ) × (free_slot p slots n i ≡ ok r) × Lowest slots n i r
unfolding free_slot
free_slot-Lowest p slots zero i h = (none, refl, inr (refl, λ j lo hi. absurd (omega arith)))
free_slot-Lowest p slots (suc n) i h =
    rw (shift_right-ok p slots i (omega arith), ◌>>=◌)
      (elim (Bool-cases (slots / 2 ^ i % 2 == 0)) [
        | inl free ↦ rw free (
          some i,
          refl,
          inl (
            i,
            refl,
            omega arith,
            omega arith,
            (==_iff _ 0).0 free,
            λ j lo hi. absurd (omega arith),
          ),
        )
        | inr used ↦ rw used (later used (free_slot-Lowest p slots n (i + 1) (omega arith)))
      ])
  where
    first : (slots / 2 ^ i % 2 == 0) ≡ false → (j : ℕ) → j ≡ i → slot_bit slots j ≡ 1
    first used j e = rw e (omega (arith, ==→≢ (slots / 2 ^ i % 2) 0 used))

    at : (j : ℕ) → i ≤ j → (j ≡ i) ⊎ (i + 1 ≤ j)
    at j lo = omega arith

    later :
        (slots / 2 ^ i % 2 == 0) ≡ false
        → (r : Option ℕ) × (free_slot p slots n (i + 1) ≡ ok r) × Lowest slots n (i + 1) r
        → (r : Option ℕ) × (free_slot p slots n (i + 1) ≡ ok r) × Lowest slots (suc n) i r
    later used (r, e, inl (s, es, lo, hi, clear, before)) = (
      r,
      e,
      inl (
        s,
        es,
        omega arith,
        omega arith,
        clear,
        λ j lo' hi'. elim (at j lo') [ inl eq ↦ first used j eq | inr lt ↦ before j lt hi' ],
      ),
    )
    later used (r, e, inr (none_left, all)) = (
      r,
      e,
      inr (
        none_left,
        λ j lo' hi'. elim (at j lo') [ inl eq ↦ first used j eq | inr lt ↦ all j lt (omega arith) ],
      ),
    )

-- The recursion that `bit_and` stands for, with a count of digits to go.
anded : ℕ → ℕ → ℕ → ℕ
anded count = digits (λ rest. 0) min count

anded_next :
    (n a x : ℕ)
    → anded (suc n) (suc a) x ≡ anded n (suc a / 2) (x / 2) * 2 + min (suc a % 2) (x % 2)
unfolding anded
anded_next n a x = refl

anded_end : (n x : ℕ) → anded (suc n) 0 x ≡ 0
unfolding anded
anded_end n x = refl

four_zeros : (x : ℕ) → anded 0xF0 0xF0 x ≡ anded 236 15 (x / 2 / 2 / 2 / 2) * 16
four_zeros x = omega (
  arith,
  anded_next 239 239 x,
  anded_next 238 119 (x / 2),
  anded_next 237 59 (x / 2 / 2),
  anded_next 236 29 (x / 2 / 2 / 2),
)

four_ones : (x : ℕ) → anded 236 15 x ≡ x % 16
four_ones x = omega (
  arith,
  anded_next 235 14 x,
  anded_next 234 6 (x / 2),
  anded_next 233 2 (x / 2 / 2),
  anded_next 232 0 (x / 2 / 2 / 2),
  anded_end 231 (x / 2 / 2 / 2 / 2),
)

from_digits : (x : ℕ) → bit_and 0xF0 x ≡ anded 0xF0 0xF0 x
unfolding anded
from_digits x = bit_and-bitwise 0xF0 x

-- The mask `& 0xF0` keeps the upper bit of the 5-bit count, and three bits above it.
pub slot_count :
    (capability : ℕ) → bit_and 0xF0 (capability / 2 ^ 8) ≡ capability / 2 ^ 12 % 16 * 16
slot_count capability =
    let x = capability / 2 ^ 8 in
    let zeros = four_zeros x in
    let ones = four_ones (x / 2 / 2 / 2 / 2) in
    let eq = from_digits x in
    let place : x / 2 / 2 / 2 / 2 ≡ capability / 2 ^ 12 = omega arith in omega arith

none_free :
    (p : Profile) (slots capability : ℕ)
    → capability / 2 ^ 12 % 16 ≡ 0
    → free_slot p slots (bit_and 0xF0 (capability / 2 ^ 8)) 0 ≡ ok none
unfolding free_slot
none_free p slots capability e =
    let zero_slots : bit_and 0xF0 (capability / 2 ^ 8) ≡ 0 = omega (arith, slot_count capability) in
    rw zero_slots refl

no_slot_found :
    (p : Profile) (x : Hardware) (with_byte_count : ℕ → Run ℕ) (port : AhciPort) (d : x.D)
    → ((d' : x.D) → (x.read_volatile (port.hba_mem + offset_of hba 0) d').0 / 2 ^ 12 % 16 ≡ 0)
    → (d' : x.D) × (find_command_slot p x with_byte_count port d ≡ ok (none, d'))
unfolding find_command_slot
no_slot_found p x with_byte_count port d few =
    let r = x.read_volatile (register_addr port.hba_mem port.port sata_active) d in
    let i = x.read_volatile (register_addr port.hba_mem port.port command_issue) r.1 in
    let c = x.read_volatile (port.hba_mem + offset_of hba 0) i.1 in
    (c.1, ap (λ o. o >>= λ s. ok (s, c.1)) (none_free p (bit_or r.0 i.0) c.0 (few i.1)))

-- A controller whose capability register has the bits 12 to 15 clear, as with 16 command slots or
-- fewer and none of the features of the bits above, leaves no slot to search: whatever is free at
-- the port of the drive, `read_sectors` panics.
pub read_sectors-no_slot :
    (p : Profile) (x : Hardware) (with_byte_count : ℕ → Run ℕ) (fuel k lba count : ℕ)
    (ports : List AhciPort) (port : AhciPort) (d : x.D)
    → get_elem? ports k ≡ some port
    → ((d' : x.D) → (x.read_volatile (port.hba_mem + offset_of hba 0) d').0 / 2 ^ 12 % 16 ≡ 0)
    → read_sectors p x with_byte_count fuel k lba count ports d ≡ panic
unfolding read_sectors open_slot
read_sectors-no_slot p x with_byte_count fuel k lba count ports port d at few =
    let d1 =
      x.write_volatile (register_addr port.hba_mem port.port interrupt_status) (u32_mod - 1) d in
    let (d2, found) = no_slot_found p x with_byte_count port d1 few in
    rw (at, expect, ◌>>=◌, found) refl
