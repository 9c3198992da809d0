-- ===== src/Syscall/Registers.antt =====
-- The model-specific registers that `init` of src/syscall.rs sets.
use Prim.Native.Nat.{bit_or}
use lobster_os_legacy.Prelude.{ℕ, ◌/◌, ◌+◌, ◌%◌, ◌^◌, ◌≡◌, refl}
use lobster_os_legacy.Syscall.Machine.{store}

abbrev pub msr_sce : ℕ
msr_sce = 0xC0000080

abbrev pub ia32_star : ℕ
ia32_star = 0xC0000081

abbrev pub ia32_lstar : ℕ
ia32_lstar = 0xC0000082

abbrev pub ia32_fmask : ℕ
ia32_fmask = 0xC0000084

-- `handler_addr` is the address of `syscall_wrapper`.
unfoldable pub init : ℕ → (ℕ → ℕ) → ℕ → ℕ
init handler_addr m =
    let m1 = store m msr_sce (bit_or (m msr_sce) 1) in
    let m2 = store m1 ia32_fmask 0x200 in
    let m3 = store m2 ia32_lstar handler_addr in store m3 ia32_star 0x23000800000000

-- `syscall` enters the wrapper with the kernel's code segment 8 and with interrupts off, and
-- `sysretq` goes to the segments 0x30 and 0x28 with privilege level 3.
pub init_registers :
    (handler_addr : ℕ) (m : ℕ → ℕ)
    → (init handler_addr m ia32_lstar ≡ handler_addr)
      × (init handler_addr m ia32_fmask / 2 ^ 9 % 2 ≡ 1)
      × (init handler_addr m ia32_star / 2 ^ 32 % 2 ^ 16 ≡ 8)
      × (init handler_addr m ia32_star / 2 ^ 48 + 16 ≡ 0x30 + 3)
      × (init handler_addr m ia32_star / 2 ^ 48 + 8 ≡ 0x28 + 3)
unfolding init
init_registers handler_addr m = (refl, refl, refl, refl, refl)
