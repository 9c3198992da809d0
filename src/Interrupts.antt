-- ===== src/Interrupts.antt =====
-- The interrupt descriptor table of src/interrupts.rs and its exception handlers. The timer's handler
-- is in Scheduler, the keyboard's in Executor. Vectors are those of the processor.
pub mod Repeats
mod Tests
use lobster_os_legacy.Prelude.{
  ℕ, ◌+◌, ◌/◌, Option, none, some, List, [], ◌∷◌, ◌++◌, ◌==◌, if◌then◌else◌,
}
use lobster_os_legacy.Gdt.{double_fault_ist_index}

abbrev pub pic_1_offset : ℕ
pic_1_offset = 32

abbrev pub timer_frequency : ℕ
timer_frequency = 1073

abbrev pub timer_frequency_base : ℕ
timer_frequency_base = 1193182

pub data InterruptIndex : Type 0 where
  timer keyboard : InterruptIndex

-- `as u8`
abbrev pub as_usize : InterruptIndex → ℕ
as_usize timer = pic_1_offset
as_usize keyboard = pic_1_offset + 1

pub data ExceptionHandler : Type 0 where
  segment_not_present_handler alignment_handler invalid_tss_handler invalid_opcode_handler
        breakpoint_handler stack_segment_fault_handler protection_fault_handler double_fault_handler
        page_fault_handler :
      ExceptionHandler

pub data Handler : Type 0 where
  exception : ExceptionHandler → Handler
  timer_interrupt_handler keyboard_interrupt_handler : Handler

pub record Gate : Type 0 where
  pub handler : Handler
  pub stack_index : Option ℕ

abbrev pub Idt : Type 0
Idt = ℕ → Option Gate

abbrev set_gate : ℕ → Gate → Idt → Idt
set_gate vector gate table v = if v == vector then some gate else table v

abbrev set_handler_fn : ℕ → Handler → Idt → Idt
set_handler_fn vector handler = set_gate vector (record { handler = handler; stack_index = none })

-- The static `IDT`.
unfoldable pub idt : Idt
idt =
    let t0 : Idt = λ v. none in
    let t1 = set_handler_fn 3 (exception breakpoint_handler) t0 in
    let t2 =
      set_gate 8
        (record {
          handler = exception double_fault_handler;
          stack_index = some double_fault_ist_index;
        })
        t1 in
    let t3 = set_handler_fn 14 (exception page_fault_handler) t2 in
    let t4 = set_handler_fn (as_usize timer) timer_interrupt_handler t3 in
    let t5 = set_handler_fn (as_usize keyboard) keyboard_interrupt_handler t4 in
    let t6 = set_handler_fn 13 (exception protection_fault_handler) t5 in
    let t7 = set_handler_fn 12 (exception stack_segment_fault_handler) t6 in
    let t8 = set_handler_fn 6 (exception invalid_opcode_handler) t7 in
    let t9 = set_handler_fn 10 (exception invalid_tss_handler) t8 in
    let t10 = set_handler_fn 17 (exception alignment_handler) t9 in
    set_handler_fn 11 (exception segment_not_present_handler) t10

-- The writes to ports, the last one first, and the table that is loaded.
pub record Setup : Type 0 where
  pub port_writes : List (ℕ × ℕ)
  pub idtr : Idt

unfoldable pub init_idt : Setup → Setup
unfolding idt
init_idt s = record {
  port_writes = (0x40, timer_frequency_base / timer_frequency) ∷ s.port_writes;
  idtr = idt;
}

-- What the processor pushes and `iretq` pops.
pub record InterruptStackFrame : Type 0 where
  pub instruction_pointer : ℕ
  pub code_segment : ℕ
  pub cpu_flags : ℕ
  pub stack_pointer : ℕ
  pub stack_segment : ℕ

-- A message: who prints it, the numbers in it, and the frame.
pub record Message : Type 0 where
  pub by : ExceptionHandler
  pub numbers : List ℕ
  pub frame : InterruptStackFrame

-- The screen and the serial port, the first message first.
pub record Output : Type 0 where
  pub screen : List Message
  pub serial : List Message

abbrev pub print : Message → Output → Output
print line o = record o { screen = o.screen ++ (line ∷ []) }

abbrev pub serial_print : Message → Output → Output
serial_print line o = record o { serial = o.serial ++ (line ∷ []) }

-- How a handler ends: it returns to the frame, it never returns, or the kernel panics.
pub data Outcome : Type 0 where
  returns : InterruptStackFrame → Output → Outcome
  hlt_loop : Output → Outcome
  panics : Message → Output → Outcome

abbrev pub message : ExceptionHandler → List ℕ → InterruptStackFrame → Message
message by numbers frame = record { by = by; numbers = numbers; frame = frame }

-- `page_fault_handler`; `cr2` is the address of the fault.
abbrev pub on_page_fault : (error_code cr2 : ℕ) → InterruptStackFrame → Output → Outcome
on_page_fault e a f o = hlt_loop (serial_print (message page_fault_handler (a ∷ e ∷ []) f) o)

-- `error_code` is given by the processor, where the exception has one.
unfoldable pub handle :
    ExceptionHandler → (error_code cr2 : ℕ) → InterruptStackFrame → Output → Outcome
handle double_fault_handler e a f o = panics (message double_fault_handler (e ∷ []) f) o
handle page_fault_handler e a f o = on_page_fault e a f o
handle invalid_opcode_handler e a f o = returns f (print (message invalid_opcode_handler [] f) o)
handle breakpoint_handler e a f o = returns f (print (message breakpoint_handler [] f) o)
handle segment_not_present_handler e a f o =
    returns f (print (message segment_not_present_handler (e ∷ []) f) o)
handle alignment_handler e a f o = returns f (print (message alignment_handler (e ∷ []) f) o)
handle invalid_tss_handler e a f o = returns f (print (message invalid_tss_handler (e ∷ []) f) o)
handle stack_segment_fault_handler e a f o =
    returns f (print (message stack_segment_fault_handler (e ∷ []) f) o)
handle protection_fault_handler e a f o =
    returns f (print (message protection_fault_handler (e ∷ []) f) o)
