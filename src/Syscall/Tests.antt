-- ===== src/Syscall/Tests.antt =====
-- A kernel whose state is the list of what was printed and released, and called code that does no
-- more than the source says.
use lobster_os_legacy.Prelude.{ℕ, ◌+◌, ◌≡◌, refl, ap, none, some, true, List, [], ◌∷◌, ◌++◌, arith}
use lobster_os_legacy.Syscall.Machine.{
  Register, rax, rbx, rcx, rdx, rsi, rdi, rbp, rsp, r8, r9, r11, r12, r13, r14, r15, Callee,
  setup_syscall_stack, syscall_handler, delete_syscall_stack, Machine, put, execute,
}
use lobster_os_legacy.Syscall.Handler
use lobster_os_legacy.Syscall.Handler.{Kernel, Outcome, returns, diverges}
use lobster_os_legacy.Syscall.Wrapper.{syscall_wrapper, Compiled}
use lobster_os_legacy.Syscall.Returns.{Returned, syscall_wrapper-Returned}

abbrev kernel : Kernel
kernel = record {
  H = List ℕ;
  alloc = λ size align h. (0x444444440000, h);
  dealloc = λ pointer size align h. pointer ∷ size ∷ align ∷ h;
  load = λ addr length h. 104 ∷ 105 ∷ [];
  from_utf8 = some;
  print = λ string h. string ++ h;
  format_u64 = λ n. (48 + n) ∷ [];
  end_current_task = λ h. h;
}

abbrev heap_of : Outcome (List ℕ) → List ℕ
heap_of (returns result h) = h
heap_of (diverges h) = h

abbrev called : Callee → Machine (List ℕ) → Machine (List ℕ)
called setup_syscall_stack m =
    let (stack, h) = Handler.setup_syscall_stack kernel m.heap in
    record m { registers = put m.registers rax stack; heap = h }
called syscall_handler m = record m {
  heap = heap_of (
      Handler.syscall_handler kernel (m.registers rdi) (m.registers rsi) (m.registers rdx)
        (m.registers rcx) (m.registers r8) (m.registers r9) m.heap);
}
called delete_syscall_stack m = record m {
  heap = Handler.delete_syscall_stack kernel (m.registers rdi) m.heap;
}

kept :
    (f : Callee) (m : Machine (List ℕ)) (r : Register)
    → ((v : ℕ) (g : Register → ℕ) → put g rax v r ≡ g r)
    → (called f m).registers r ≡ m.registers r
kept setup_syscall_stack m r h = h _ m.registers
kept syscall_handler m r h = refl
kept delete_syscall_stack m r h = refl

memory_kept : (f : Callee) (m : Machine (List ℕ)) (a : ℕ) → (called f m).memory a ≡ m.memory a
memory_kept setup_syscall_stack m a = refl
memory_kept syscall_handler m a = refl
memory_kept delete_syscall_stack m a = refl

abbrev low : ℕ
low = 0x800000

abbrev high : ℕ
high = 0x811000

compiled : Compiled kernel low high called
compiled = record {
  rbx_kept = λ f m. kept f m rbx (λ v g. refl);
  rbp_kept = λ f m. kept f m rbp (λ v g. refl);
  rsp_kept = λ f m. kept f m rsp (λ v g. refl);
  r12_kept = λ f m. kept f m r12 (λ v g. refl);
  r13_kept = λ f m. kept f m r13 (λ v g. refl);
  r14_kept = λ f m. kept f m r14 (λ v g. refl);
  r15_kept = λ f m. kept f m r15 (λ v g. refl);
  stack_kept = λ f m a lo hi away. memory_kept f m a;
  top_kept = λ m. refl;
  setup = λ m. (refl, refl);
  handler = λ m result h e. ap heap_of e;
  delete = λ m. refl;
}

-- A call of `print_vga_text`.
abbrev registers : Register → ℕ
registers rsp = 0x810F00
registers rcx = 0x1234
registers r11 = 0x202
registers rdi = 0x5000
registers rsi = 2
registers rbx = 77
registers _ = 0

abbrev at_syscall : Machine (List ℕ)
at_syscall = record {
  registers = registers;
  memory = λ a. 0;
  interrupts = true;
  heap = [];
  user = none;
}

syscall_wrapper-Returned_example :
    Returned at_syscall
      (execute called syscall_wrapper at_syscall)
      (0x444444440000 ∷ 0x1000 ∷ 8 ∷ 104 ∷ 105 ∷ [])
unfolding Handler.syscall_handler Handler.print_vga_text
syscall_wrapper-Returned_example =
    syscall_wrapper-Returned kernel low high called compiled at_syscall (omega arith) (omega arith)
      (omega arith) 0 (104 ∷ 105 ∷ []) refl
