-- ===== src/Syscall/Returns.antt =====
-- The way of a system call through `syscall_wrapper` of src/syscall.rs and back to ring 3.
use lobster_os_legacy.Prelude.{
  ℕ, ◌+◌, ◌-◌, ◌≤◌, ◌≡◌, inl, inr, refl, ap, sym, ◌∙◌, Option, some, List, [], ◌∷◌, ◌++◌, arith,
}
use lobster_os_legacy.Syscall.Machine.{
  rax, rbx, rcx, rdx, rsi, rdi, rbp, rsp, r8, r9, r10, r11, r12, r13, r14, r15, Callee,
  setup_syscall_stack, syscall_handler, delete_syscall_stack, push, pop, mov, sti, cli, sysretq,
  Machine, step, execute,
}
use lobster_os_legacy.Syscall.Handler
use lobster_os_legacy.Syscall.Handler.{Kernel, returns, stack_size}
use lobster_os_legacy.Syscall.Wrapper.{syscall_wrapper, Compiled}
use lobster_os_legacy.Syscall.Words.{
  words, store_same, store_other, words_same, words_pop, onto, pushed-words,
}

handler_same :
    (k : Kernel) (h h' : k.H) (i i' a a' b b' c c' e e' s s' : ℕ)
    → i ≡ i'
    → a ≡ a'
    → b ≡ b'
    → c ≡ c'
    → e ≡ e'
    → s ≡ s'
    → h ≡ h'
    → Handler.syscall_handler k i a b c e s h ≡ Handler.syscall_handler k i' a' b' c' e' s' h'
handler_same k h h' i i' a a' b b' c c' e e' s s' p0 p1 p2 p3 p4 p5 p6 = cc

pair_same :
    (a a' b b' : ℕ) → a ≡ a' → b ≡ b' → ◌≡◌ {A = Option (ℕ × ℕ)} (some (a, b)) (some (a', b'))
pair_same a a' b b' e f = cc

-- Back in ring 3: the registers that a callee must preserve are as they were at `syscall`, control
-- is where it left off with the flags it had (`rcx` and `r11`), and the handlers' effects and the
-- release of the stack are all that became of the kernel's state.
pub record Returned {H : Type 0} (m m' : Machine H) (heap : H) : Type 0 where
  pub rbx_same : m'.registers rbx ≡ m.registers rbx
  pub rbp_same : m'.registers rbp ≡ m.registers rbp
  pub rsp_same : m'.registers rsp ≡ m.registers rsp
  pub r12_same : m'.registers r12 ≡ m.registers r12
  pub r13_same : m'.registers r13 ≡ m.registers r13
  pub r14_same : m'.registers r14 ≡ m.registers r14
  pub r15_same : m'.registers r15 ≡ m.registers r15
  pub user_at : m'.user ≡ some (m.registers rcx, m.registers r11)
  pub heap_is : m'.heap ≡ heap

module _ (k : Kernel) (low high : ℕ) (called : Callee → Machine k.H → Machine k.H)
    (compiled : Compiled k low high called) (m : Machine k.H) where
  -- The values that the wrapper pushes before its first call.
  abbrev kept_words : List ℕ
  kept_words =
      m.registers rcx
      ∷ m.registers r11
      ∷ m.registers rbp
      ∷ m.registers rbx
      ∷ m.registers r12
      ∷ m.registers r13
      ∷ m.registers r14
      ∷ m.registers r15
      ∷ []

  abbrev argument_words : List ℕ
  argument_words =
      m.registers rax ∷ m.registers rdi ∷ m.registers rsi ∷ m.registers rdx ∷ m.registers r10 ∷ []

  -- Up to the first call.
  abbrev entry : Machine k.H
  entry =
      execute called
        (push rcx
          ∷ push r11
          ∷ push rbp
          ∷ push rbx
          ∷ push r12
          ∷ push r13
          ∷ push r14
          ∷ push r15
          ∷ mov rbp rsp
          ∷ push rax
          ∷ push rdi
          ∷ push rsi
          ∷ push rdx
          ∷ push r10
          ∷ [])
        m

  abbrev with_stack : Machine k.H
  with_stack = called setup_syscall_stack entry

  abbrev at_handler : Machine k.H
  at_handler =
      execute called
        (mov r9 rax
          ∷ sti
          ∷ pop r8
          ∷ pop rcx
          ∷ pop rdx
          ∷ pop rsi
          ∷ pop rdi
          ∷ mov rsp r9
          ∷ push r9
          ∷ [])
        with_stack

  abbrev handled : Machine k.H
  handled = called syscall_handler at_handler

  abbrev at_delete : Machine k.H
  at_delete = execute called (cli ∷ pop rdi ∷ []) handled

  abbrev freed : Machine k.H
  freed = called delete_syscall_stack at_delete

  abbrev left : Machine k.H
  left =
      execute called
        (mov rsp rbp
          ∷ pop r15
          ∷ pop r14
          ∷ pop r13
          ∷ pop r12
          ∷ pop rbx
          ∷ pop rbp
          ∷ pop r11
          ∷ pop rcx
          ∷ sysretq
          ∷ [])
        freed

  phases : execute called syscall_wrapper m ≡ left
  unfolding syscall_wrapper execute step
  phases = refl

  entry_words :
      104 ≤ m.registers rsp
      → words entry.memory (entry.registers rsp) 13 ≡ onto argument_words (onto kept_words [])
  unfolding execute step words
  entry_words room =
      pushed-words (kept_words ++ argument_words) m.memory (m.registers rsp) 0 (omega arith)

  frame :
      104 ≤ m.registers rsp
      → (entry.registers rsp ≡ m.registers rsp - 104) × (entry.registers rbp ≡ m.registers rsp - 64)
  unfolding execute step
  frame room = (omega arith, omega arith)

  module _ (room : low + 104 ≤ m.registers rsp) (inside : m.registers rsp ≤ high) where
    with_words :
        words with_stack.memory (with_stack.registers rsp) 13
        ≡ onto argument_words (onto kept_words [])
    with_words =
        let (top, base) = frame (omega arith) in
        ap (λ a. words with_stack.memory a 13) (compiled.rsp_kept setup_syscall_stack entry)
        ∙ words_same with_stack.memory entry.memory (entry.registers rsp) 13 (λ b lo hi.
          compiled.stack_kept setup_syscall_stack entry b (omega arith) (omega arith) (inl lo))
        ∙ entry_words (omega arith)

    -- What the five pops before the handler find, and what stays on the user's stack.
    found :
        let a = with_stack.registers rsp in
        (with_stack.memory a ≡ m.registers r10)
        × (with_stack.memory (a + 8) ≡ m.registers rdx)
        × (with_stack.memory (a + 8 + 8) ≡ m.registers rsi)
        × (with_stack.memory (a + 8 + 8 + 8) ≡ m.registers rdi)
        × (with_stack.memory (a + 8 + 8 + 8 + 8) ≡ m.registers rax)
        × (words with_stack.memory (a + 8 + 8 + 8 + 8 + 8) 8 ≡ onto kept_words [])
    found =
        let (w0, ws0) = words_pop _ _ _ _ _ with_words in
        let (w1, ws1) = words_pop _ _ _ _ _ ws0 in
        let (w2, ws2) = words_pop _ _ _ _ _ ws1 in
        let (w3, ws3) = words_pop _ _ _ _ _ ws2 in
        let (w4, ws4) = words_pop _ _ _ _ _ ws3 in (w0, w1, w2, w3, w4, ws4)

    module _ (free : high ≤ (k.alloc stack_size 8 m.heap).0) (result : ℕ) (after : k.H)
        (handles : let (pointer, h) = k.alloc stack_size 8 m.heap in
          Handler.syscall_handler k
            (m.registers rax)
            (m.registers rdi)
            (m.registers rsi)
            (m.registers rdx)
            (m.registers r10)
            (pointer + stack_size)
            h
          ≡ returns result after) where
      stack_at : with_stack.registers rax ≡ (k.alloc stack_size 8 m.heap).0 + stack_size
      unfolding Handler.setup_syscall_stack execute step
      stack_at = (compiled.setup entry).0

      heap_at : with_stack.heap ≡ (k.alloc stack_size 8 m.heap).1
      unfolding Handler.setup_syscall_stack execute step
      heap_at = (compiled.setup entry).1

      handled_heap : handled.heap ≡ after
      unfolding execute step
      handled_heap =
          let (w0, w1, w2, w3, w4, ws) = found in
          compiled.handler at_handler result after
            (handler_same k _ _ _ _ _ _ _ _ _ _ _ _ _ _ w4 w3 w2 w1 w0 stack_at heap_at ∙ handles)

      handler_top : at_handler.registers rsp ≡ (k.alloc stack_size 8 m.heap).0 + stack_size - 8
      unfolding execute step
      handler_top = ap (λ a. a - 8) stack_at

      stack_popped : at_delete.registers rdi ≡ (k.alloc stack_size 8 m.heap).0 + stack_size
      unfolding execute step
      stack_popped =
          ap handled.memory (compiled.rsp_kept syscall_handler at_handler)
          ∙ compiled.top_kept at_handler
          ∙ store_same with_stack.memory (with_stack.registers rax - 8) (with_stack.registers rax)
          ∙ stack_at

      freed_heap : freed.heap ≡ k.dealloc (k.alloc stack_size 8 m.heap).0 stack_size 8 after
      unfolding Handler.delete_syscall_stack execute step
      freed_heap =
          let p = (k.alloc stack_size 8 m.heap).0 in
          let start : p + stack_size - stack_size ≡ p = omega arith in
          compiled.delete at_delete
          ∙ ap (λ a. k.dealloc (a - stack_size) stack_size 8 handled.heap) stack_popped
          ∙ ap (λ a. k.dealloc a stack_size 8 handled.heap) start
          ∙ ap (k.dealloc p stack_size 8) handled_heap

      base : freed.registers rbp ≡ m.registers rsp - 64
      unfolding execute step
      base =
          compiled.rbp_kept delete_syscall_stack at_delete
          ∙ compiled.rbp_kept syscall_handler at_handler
          ∙ compiled.rbp_kept setup_syscall_stack entry
          ∙ (frame (omega arith)).1

      delete_top : at_delete.registers rsp ≡ (k.alloc stack_size 8 m.heap).0 + stack_size
      unfolding execute step
      delete_top = omega (arith, handler_top, compiled.rsp_kept syscall_handler at_handler)

      -- No later call or push writes the words saved at the entry.
      word_kept :
          (b : ℕ)
          → m.registers rsp - 64 ≤ b
          → b + 8 ≤ m.registers rsp
          → freed.memory b ≡ with_stack.memory b
      unfolding execute step
      word_kept b lo hi =
          compiled.stack_kept delete_syscall_stack at_delete b (omega arith) (omega arith)
            (inr (omega (arith, delete_top)))
          ∙ compiled.stack_kept syscall_handler at_handler b (omega arith) (omega arith)
              (inr (omega (arith, handler_top)))
          ∙ store_other with_stack.memory (with_stack.registers rax - 8) (with_stack.registers rax)
              b (λ e. absurd (omega (arith, stack_at)))

      freed_words : words freed.memory (freed.registers rbp) 8 ≡ onto kept_words []
      freed_words =
          let (w0, w1, w2, w3, w4, ws) = found in
          let top = compiled.rsp_kept setup_syscall_stack entry in
          let (below, saved_at) = frame (omega arith) in
          let same : with_stack.registers rsp + 8 + 8 + 8 + 8 + 8 ≡ m.registers rsp - 64 =
            omega arith in
          ap (λ a. words freed.memory a 8) (base ∙ sym same)
          ∙ words_same freed.memory with_stack.memory _ 8
              (λ b lo hi. word_kept b (omega arith) (omega arith))
          ∙ ws

      -- A system call whose handler returns, made with 104 bytes of room on the user's stack, comes back
      -- to ring 3 at the address and with the flags of `rcx` and `r11`, with the stack pointer and the
      -- callee-saved registers of the caller. The kernel's state is what allocating a stack, one run of
      -- the handler and releasing that stack leave: the handler's arguments are `rax`, `rdi`, `rsi`,
      -- `rdx`, `r10` and the end of the new stack, and the release has the pointer and the layout of the
      -- allocation. The code that is called keeps to `Compiled`, and the new stack lies above the
      -- user's.
      pub syscall_wrapper-Returned :
          Returned m
            (execute called syscall_wrapper m)
            (k.dealloc (k.alloc stack_size 8 m.heap).0 stack_size 8 after)
      unfolding execute step syscall_wrapper
      syscall_wrapper-Returned =
          let (r15_at, ws0) = words_pop _ _ _ _ _ freed_words in
          let (r14_at, ws1) = words_pop _ _ _ _ _ ws0 in
          let (r13_at, ws2) = words_pop _ _ _ _ _ ws1 in
          let (r12_at, ws3) = words_pop _ _ _ _ _ ws2 in
          let (rbx_at, ws4) = words_pop _ _ _ _ _ ws3 in
          let (rbp_at, ws5) = words_pop _ _ _ _ _ ws4 in
          let (r11_at, ws6) = words_pop _ _ _ _ _ ws5 in
          let (rcx_at, ws7) = words_pop _ _ _ _ _ ws6 in
          record {
            rbx_same = rbx_at;
            rbp_same = rbp_at;
            rsp_same = omega (arith, base);
            r12_same = r12_at;
            r13_same = r13_at;
            r14_same = r14_at;
            r15_same = r15_at;
            user_at = pair_same _ _ _ _ rcx_at r11_at;
            heap_is = freed_heap;
          }
