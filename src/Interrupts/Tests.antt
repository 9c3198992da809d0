-- ===== src/Interrupts/Tests.antt =====
-- A program at a privileged instruction.
use lobster_os_legacy.Prelude.{◌≡◌, refl, [], ◌∷◌, replicate}
use lobster_os_legacy.Interrupts.{ExceptionHandler, InterruptStackFrame, Output, message}
use lobster_os_legacy.Interrupts.Repeats.{
  Execution, raises, general_protection_fault, at, steps, fault-repeats,
}

abbrev frame : InterruptStackFrame
frame = record {
  instruction_pointer = 0x401000;
  code_segment = 0x33;
  cpu_flags = 0x200;
  stack_pointer = 0x810000;
  stack_segment = 0x2B;
}

abbrev no_output : Output
no_output = record { screen = []; serial = [] }

abbrev privileged : InterruptStackFrame → Execution
privileged f = raises 13 0 0 f

fault-repeats_example :
    steps privileged 3 (at frame no_output)
    ≡ at frame (record no_output {
      screen = replicate 3 (message ExceptionHandler.protection_fault_handler (0 ∷ []) frame);
    })
fault-repeats_example =
    fault-repeats privileged 3 13 0 0 ExceptionHandler.protection_fault_handler (λ e. e ∷ []) frame
      no_output general_protection_fault refl
