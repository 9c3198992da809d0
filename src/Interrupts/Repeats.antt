-- ===== src/Interrupts/Repeats.antt =====
-- What becomes of a program that faults.
use lobster_os_legacy.Prelude.{
  append-empty, snoc-append, sym, ℕ, zero, suc, ◌≡◌, refl, ap, ◌∙◌, Option, none, some, List, [],
  ◌∷◌, ◌++◌, replicate,
}
use lobster_os_legacy.Interrupts.{
  ExceptionHandler, Handler, Gate, idt, InterruptStackFrame, Output, Outcome, message, handle,
}

-- What the processor does with the instruction at a frame: it goes on at another, or it raises an
-- exception with a vector, its error code and the address of a page fault, and the frame to return to.
pub data Execution : Type 0 where
  goes_on : InterruptStackFrame → Execution
  raises : (vector error_code cr2 : ℕ) → InterruptStackFrame → Execution

-- The faults but for the page fault and the double fault, each with its handler and the numbers that
-- it prints.
pub data IsFault : ℕ → ExceptionHandler → (ℕ → List ℕ) → Type 0 where
  invalid_opcode : IsFault 6 ExceptionHandler.invalid_opcode_handler (λ e. [])
  invalid_tss : IsFault 10 ExceptionHandler.invalid_tss_handler (λ e. e ∷ [])
  segment_not_present : IsFault 11 ExceptionHandler.segment_not_present_handler (λ e. e ∷ [])
  stack_segment_fault : IsFault 12 ExceptionHandler.stack_segment_fault_handler (λ e. e ∷ [])
  general_protection_fault : IsFault 13 ExceptionHandler.protection_fault_handler (λ e. e ∷ [])
  alignment_check : IsFault 17 ExceptionHandler.alignment_handler (λ e. e ∷ [])

-- Where a run is: at a frame; with the kernel halted or in a panic; or at a vector without a gate for
-- an exception.
pub data Progress : Type 0 where
  at : InterruptStackFrame → Output → Progress
  halted panicked : Output → Progress
  no_gate : Progress

abbrev ended : Outcome → Progress
ended (Outcome.returns f o) = at f o
ended (Outcome.hlt_loop o) = halted o
ended (Outcome.panics line o) = panicked o

abbrev delivered : (error_code cr2 : ℕ) → InterruptStackFrame → Output → Option Gate → Progress
delivered e a f o none = no_gate
delivered e a f o (some g) = elim g.handler [
  | Handler.exception h ↦ ended (handle h e a f o)
  | Handler.timer_interrupt_handler ↦ no_gate
  | Handler.keyboard_interrupt_handler ↦ no_gate
]

module _ (execute : InterruptStackFrame → Execution) where
  abbrev executed : Output → Execution → Progress
  executed o (goes_on f) = at f o
  executed o (raises v e a f) = delivered e a f o (idt v)

  -- One instruction, with its handler where it raises an exception.
  abbrev step : Progress → Progress
  step (at f o) = executed o (execute f)
  step (halted o) = halted o
  step (panicked o) = panicked o
  step no_gate = no_gate

  abbrev pub steps : ℕ → Progress → Progress
  steps zero s = s
  steps (suc n) s = steps n (step s)

  fault-returns :
      (v e a : ℕ) (h : ExceptionHandler) (numbers : ℕ → List ℕ) (f : InterruptStackFrame)
      (o : Output)
      → IsFault v h numbers
      → delivered e a f o (idt v)
        ≡ at f (record o { screen = o.screen ++ (message h (numbers e) f ∷ []) })
  unfolding idt handle
  fault-returns v e a h numbers f o invalid_opcode = refl
  fault-returns v e a h numbers f o invalid_tss = refl
  fault-returns v e a h numbers f o segment_not_present = refl
  fault-returns v e a h numbers f o stack_segment_fault = refl
  fault-returns v e a h numbers f o general_protection_fault = refl
  fault-returns v e a h numbers f o alignment_check = refl

  -- A program whose instruction faults, so that the processor would run it again, is neither ended
  -- nor moved on: for each of the faults invalid opcode, invalid TSS, segment not present,
  -- stack-segment fault, general protection fault and alignment check, after any number of rounds it
  -- stands at the same instruction with the same stack, and the only effect is one more message on
  -- the screen for each round.
  pub fault-repeats :
      (n v e a : ℕ) (h : ExceptionHandler) (numbers : ℕ → List ℕ) (f : InterruptStackFrame)
      (o : Output)
      → IsFault v h numbers
      → execute f ≡ raises v e a f
      → steps n (at f o)
        ≡ at f (record o { screen = o.screen ++ replicate n (message h (numbers e) f) })
  fault-repeats zero v e a h numbers f o is faults =
      ap (λ ms. at f (record o { screen = ms })) (sym (append-empty o.screen))
  fault-repeats (suc n) v e a h numbers f o is faults =
      let line = message h (numbers e) f in
      let o' : Output = record o { screen = o.screen ++ (line ∷ []) } in
      ap (λ x. steps n (executed o x)) faults
      ∙ ap (steps n) (fault-returns v e a h numbers f o is)
      ∙ fault-repeats n v e a h numbers f o' is faults
      ∙ ap (λ ms. at f (record o { screen = ms })) (snoc-append o.screen (replicate n line) line)
