-- ===== src/Syscall/Handler.antt =====
-- The functions that `syscall_wrapper` calls, in src/syscall.rs, src/syscall/process.rs and
-- src/syscall/display.rs.
use lobster_os_legacy.Prelude.{
  ℕ, zero, suc, ◌+◌, ◌-◌, List, [], ◌∷◌, ◌++◌, Option, none, some, u64_mod,
}

-- What the handlers use of the rest of the kernel: the global allocator, the memory a user pointer
-- refers to, `core::str::from_utf8`, the text writer, the decimal digits of a `u64`, and
-- `end_current_task` of the scheduler.
pub record Kernel : Type 1 where
  pub H : Type 0
  pub alloc : (size align : ℕ) → H → ℕ × H
  pub dealloc : (pointer size align : ℕ) → H → H
  pub load : (addr length : ℕ) → H → List ℕ
  pub from_utf8 : List ℕ → Option (List ℕ)
  pub print : List ℕ → H → H
  pub format_u64 : ℕ → List ℕ
  pub end_current_task : H → H

-- An `i64` as the 64-bit word it is in `rax`, or no return.
pub data Outcome (H : Type 0) : Type 0 where
  returns : ℕ → H → Outcome H
  diverges : H → Outcome H

abbrev pub stack_size : ℕ
stack_size = 0x1000

-- "unknown syscall: "
abbrev unknown_syscall : List ℕ
unknown_syscall =
    117 ∷ 110 ∷ 107 ∷ 110 ∷ 111 ∷ 119 ∷ 110 ∷ 32 ∷ 115 ∷ 121 ∷ 115 ∷ 99 ∷ 97 ∷ 108 ∷ 108 ∷ 58 ∷ 32
    ∷ []

module _ (k : Kernel) where
  open k use {H, alloc, dealloc, load, from_utf8, print, format_u64, end_current_task}

  unfoldable pub setup_syscall_stack : H → ℕ × H
  setup_syscall_stack h =
      let (syscall_stack, h') = alloc stack_size 8 h in (syscall_stack + stack_size, h')

  unfoldable pub delete_syscall_stack : ℕ → H → H
  delete_syscall_stack stack_end_ptr h = dealloc (stack_end_ptr - stack_size) stack_size 8 h

  unfoldable pub default_syscall : ℕ → H → Outcome H
  default_syscall syscall_id h =
      returns 0 (print (unknown_syscall ++ format_u64 syscall_id ++ (10 ∷ [])) h)

  -- `-1` is 2^64 - 1.
  unfoldable pub print_vga_text : (text_addr length : ℕ) → H → Outcome H
  print_vga_text text_addr length h = elim (from_utf8 (load text_addr length h)) [
    | none ↦ returns (u64_mod - 1) h
    | some string ↦ returns 0 (print string h)
  ]

  -- The current task has ended: the scheduler does not come back to it.
  unfoldable pub exit : (exit_code stack_addr : ℕ) → H → Outcome H
  unfolding delete_syscall_stack
  exit exit_code stack_addr h = diverges (end_current_task (delete_syscall_stack stack_addr h))

  unfoldable pub syscall_handler : (syscall_id arg0 arg1 arg2 arg3 stack_addr : ℕ) → H → Outcome H
  unfolding print_vga_text exit default_syscall
  syscall_handler zero arg0 arg1 arg2 arg3 stack_addr h = print_vga_text arg0 arg1 h
  syscall_handler (suc zero) arg0 arg1 arg2 arg3 stack_addr h = exit arg0 stack_addr h
  syscall_handler (suc (suc n)) arg0 arg1 arg2 arg3 stack_addr h = default_syscall (suc (suc n)) h
