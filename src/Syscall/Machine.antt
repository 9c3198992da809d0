-- ===== src/Syscall/Machine.antt =====
-- The instructions of `syscall_wrapper` in src/syscall.rs.
use lobster_os_legacy.Prelude.{
  ℕ, ◌+◌, ◌-◌, ◌/◌, ◌%◌, ◌^◌, Option, some, Bool, true, false, List, [], ◌∷◌, ◌==◌, if◌then◌else◌,
}

pub data Register : Type 0 where
  rax rbx rcx rdx rsi rdi rbp rsp r8 r9 r10 r11 r12 r13 r14 r15 : Register

abbrev number : Register → ℕ
number rax = 0
number rcx = 1
number rdx = 2
number rbx = 3
number rsp = 4
number rbp = 5
number rsi = 6
number rdi = 7
number r8 = 8
number r9 = 9
number r10 = 10
number r11 = 11
number r12 = 12
number r13 = 13
number r14 = 14
number r15 = 15

-- The functions that the assembly calls.
pub data Callee : Type 0 where
  setup_syscall_stack syscall_handler delete_syscall_stack : Callee

pub data Instruction : Type 0 where
  push pop : Register → Instruction
  -- Destination first.
  mov : Register → Register → Instruction
  call : Callee → Instruction
  sti cli sysretq : Instruction

-- `heap` is the rest of the kernel's state, which only called functions use; `user` is the address
-- and the flags with which control went back to ring 3.
pub record Machine (H : Type 0) : Type 0 where
  pub registers : Register → ℕ
  pub memory : ℕ → ℕ
  pub interrupts : Bool
  pub heap : H
  pub user : Option (ℕ × ℕ)

abbrev pub put : (Register → ℕ) → Register → ℕ → Register → ℕ
put regs r v q = if number q == number r then v else regs q

abbrev pub store : (ℕ → ℕ) → ℕ → ℕ → ℕ → ℕ
store memory a v b = if b == a then v else memory b

module _ {H : Type 0} (called : Callee → Machine H → Machine H) where
  unfoldable pub step : Instruction → Machine H → Machine H
  step (push r) m =
      let top = m.registers rsp - 8 in
      record m { registers = put m.registers rsp top; memory = store m.memory top (m.registers r) }
  step (pop r) m =
      let top = m.registers rsp in
      record m { registers = put (put m.registers rsp (top + 8)) r (m.memory top) }
  step (mov r q) m = record m { registers = put m.registers r (m.registers q) }
  step (call f) m = called f m
  step sti m = record m { interrupts = true }
  step cli m = record m { interrupts = false }
  step sysretq m = record m {
    interrupts = m.registers r11 / 2 ^ 9 % 2 == 1;
    user = some (m.registers rcx, m.registers r11);
  }

  unfoldable pub execute : List Instruction → Machine H → Machine H
  unfolding step
  execute [] m = m
  execute (i ∷ is) m = execute is (step i m)
