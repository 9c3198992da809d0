-- ===== src/Process/Context.antt =====
-- A context switch away from a process and back: `deactivate`, then `activate`.
use lobster_os_legacy.Prelude.{◌+◌, ◌%◌, ◌≡◌, none, false, true, refl, arith, u64_mod}
use lobster_os_legacy.Process.{
  ProcessState, Process, resumed, user, Machine, Selectors, deactivate, activate,
  set_usermode_segments, return_slot, userspace_stack, restore, switch_to_usermode,
}

-- The registers that a callee must preserve are the same in both contexts.
pub record SameCalleeSaved (a b : ProcessState) : Type 0 where
  pub rbx : a.rbx ≡ b.rbx
  pub rbp : a.rbp ≡ b.rbp
  pub r12 : a.r12 ≡ b.r12
  pub r13 : a.r13 ≡ b.r13
  pub r14 : a.r14 ≡ b.r14
  pub r15 : a.r15 ≡ b.r15

-- A process that `deactivate` suspended in machine `m` and that `activate` takes up in any machine
-- `n` has the callee-saved registers of `m`, the stack pointer of `m` moved by 0xc8 + 8 (modulo
-- 2^64), control at the return address of the suspended call, interrupts on, and its own page
-- table; only the answer `false` of the first return differs from the resumed one.
pub activate-deactivate :
    (g : Selectors) (p : Process) (m n : Machine)
    → let (q, answer) = deactivate m p in
      let m' = activate g q n in
      (answer ≡ false)
      × SameCalleeSaved m'.registers m.registers
      × (m'.registers.rsp ≡ (m.registers.rsp + 0xd0) % u64_mod)
      × (m'.control ≡ resumed (return_slot m.registers.rsp))
      × (m'.interrupts ≡ true)
      × (m'.cr3 + p.page_table_addr % 0x1000 ≡ p.page_table_addr)
unfolding activate deactivate
activate-deactivate g p m n = (
  refl,
  record { rbx = refl; rbp = refl; r12 = refl; r13 = refl; r14 = refl; r15 = refl },
  omega arith,
  refl,
  refl,
  omega arith,
)

-- A process that never ran starts at its entry point in ring 3, on the user stack, with the
-- interrupt flag set.
pub activate_fresh :
    (g : Selectors) (p : Process) (n : Machine)
    → p.process_state ≡ none
    → let (cs, ds) = set_usermode_segments g in
      (activate g p n).control ≡ user p.entry_offset cs 0x200 userspace_stack ds
unfolding activate switch_to_usermode
activate_fresh g p n h = rw (h, restore)
