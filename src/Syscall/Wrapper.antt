-- ===== src/Syscall/Wrapper.antt =====
-- `syscall_wrapper` of src/syscall.rs, from the entry by `syscall` to `sysretq`.
use lobster_os_legacy.Prelude.{ℕ, ◌+◌, ◌≤◌, ◌≡◌, ◌⊎◌, List, [], ◌∷◌}
use lobster_os_legacy.Syscall.Machine.{
  Register, rax, rbx, rcx, rdx, rsi, rdi, rbp, rsp, r8, r9, r10, r11, r12, r13, r14, r15, Callee,
  setup_syscall_stack, syscall_handler, delete_syscall_stack, Instruction, push, pop, mov, call,
  sti, cli, sysretq, Machine,
}
use lobster_os_legacy.Syscall.Handler
use lobster_os_legacy.Syscall.Handler.{Kernel, returns, stack_size}

abbrev pub saved : List Register
saved = rcx ∷ r11 ∷ rbp ∷ rbx ∷ r12 ∷ r13 ∷ r14 ∷ r15 ∷ []

abbrev pub arguments : List Register
arguments = rax ∷ rdi ∷ rsi ∷ rdx ∷ r10 ∷ []

unfoldable pub syscall_wrapper : List Instruction
syscall_wrapper =
    push rcx
    ∷ push r11
    ∷ push rbp
    ∷ push rbx
    ∷ push r12
    ∷ push r13
    ∷ push r14
    ∷ push r15
    ∷ mov rbp rsp
    ∷ push rax
    ∷ push rdi
    ∷ push rsi
    ∷ push rdx
    ∷ push r10
    ∷ call setup_syscall_stack
    ∷ mov r9 rax
    ∷ sti
    ∷ pop r8
    ∷ pop rcx
    ∷ pop rdx
    ∷ pop rsi
    ∷ pop rdi
    ∷ mov rsp r9
    ∷ push r9
    ∷ call syscall_handler
    ∷ cli
    ∷ pop rdi
    ∷ call delete_syscall_stack
    ∷ mov rsp rbp
    ∷ pop r15
    ∷ pop r14
    ∷ pop r13
    ∷ pop r12
    ∷ pop rbx
    ∷ pop rbp
    ∷ pop r11
    ∷ pop rcx
    ∷ sysretq
    ∷ []

-- What the code that `call` runs keeps to, the user's stack being the words from `low` to `high`.
pub record Compiled (k : Kernel) (low high : ℕ) (called : Callee → Machine k.H → Machine k.H)
    : Type 0 where
  -- The C calling convention: the callee-saved registers.
  pub rbx_kept : (f : Callee) (m : Machine k.H) → (called f m).registers rbx ≡ m.registers rbx
  pub rbp_kept : (f : Callee) (m : Machine k.H) → (called f m).registers rbp ≡ m.registers rbp
  pub rsp_kept : (f : Callee) (m : Machine k.H) → (called f m).registers rsp ≡ m.registers rsp
  pub r12_kept : (f : Callee) (m : Machine k.H) → (called f m).registers r12 ≡ m.registers r12
  pub r13_kept : (f : Callee) (m : Machine k.H) → (called f m).registers r13 ≡ m.registers r13
  pub r14_kept : (f : Callee) (m : Machine k.H) → (called f m).registers r14 ≡ m.registers r14
  pub r15_kept : (f : Callee) (m : Machine k.H) → (called f m).registers r15 ≡ m.registers r15
  -- Kernel code writes no word of the user's stack, but for its own frames below the stack pointer,
  -- which fit in a page.
  pub stack_kept :
      (f : Callee) (m : Machine k.H) (a : ℕ)
      → low ≤ a
      → a + 8 ≤ high
      → (m.registers rsp ≤ a) ⊎ (a + 0x1000 ≤ m.registers rsp)
      → (called f m).memory a ≡ m.memory a
  -- The handler keeps the word of its caller on top of the new stack.
  pub top_kept :
      (m : Machine k.H)
      → (called syscall_handler m).memory (m.registers rsp) ≡ m.memory (m.registers rsp)
  -- The functions do what their source says: arguments in `rdi`, `rsi`, `rdx`, `rcx`, `r8`, `r9`,
  -- the result in `rax`.
  pub setup :
      (m : Machine k.H)
      → ((called setup_syscall_stack m).registers rax ≡ (Handler.setup_syscall_stack k m.heap).0)
        × ((called setup_syscall_stack m).heap ≡ (Handler.setup_syscall_stack k m.heap).1)
  pub handler :
      (m : Machine k.H) (result : ℕ) (h : k.H)
      → Handler.syscall_handler k
          (m.registers rdi)
          (m.registers rsi)
          (m.registers rdx)
          (m.registers rcx)
          (m.registers r8)
          (m.registers r9)
          m.heap
        ≡ returns result h
      → (called syscall_handler m).heap ≡ h
  pub delete :
      (m : Machine k.H)
      → (called delete_syscall_stack m).heap
        ≡ Handler.delete_syscall_stack k (m.registers rdi) m.heap
