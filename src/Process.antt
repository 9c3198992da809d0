-- ===== src/Process.antt =====
-- The execution context of a process: src/process.rs, and the user segments of src/gdt.rs.
-- The callee-saved registers, the stack pointer, `cr3` and where control goes are explicit; the
-- assembly of `activate` and `deactivate` is read as moves between them and `process_state`.
pub mod Context
pub mod Spawn
pub mod Sample
mod Tests
pub mod Spawned
pub mod File
pub mod Stack
pub mod Shared
use Prim.Native.Nat.{bit_or}
use lobster_os_legacy.Prelude.{
  ℕ, ◌+◌, ◌-◌, ◌*◌, ◌/◌, ◌%◌, Option, none, some, Bool, true, false, List, u64_mod,
}

abbrev pub userspace_stack : ℕ
userspace_stack = 0x810000

abbrev pub userspace_stack_base : ℕ
userspace_stack_base = 0x800000

-- Callee-saved registers and the stack pointer.
pub record ProcessState : Type 0 where
  pub rbx : ℕ
  pub rbp : ℕ
  pub r12 : ℕ
  pub r13 : ℕ
  pub r14 : ℕ
  pub r15 : ℕ
  pub rsp : ℕ

-- `page_table` is the level 4 table, its 512 raw entries; `regions` the frames by address.
pub record Process : Type 0 where
  pub page_table : List ℕ
  pub process_state : Option ProcessState
  pub page_table_addr : ℕ
  pub entry_offset : ℕ
  pub regions : List ℕ

-- Where control is. `resumed slot` is inside the caller of the `deactivate` call whose return
-- address stands at `slot`, which has just returned `true`; `user` is ring 3, by the `iretq` frame.
pub data Control : Type 0 where
  kernel : Control
  resumed : ℕ → Control
  user : (rip cs rflags rsp ss : ℕ) → Control
  halted : Control

pub record Machine : Type 0 where
  pub cr3 : ℕ
  pub interrupts : Bool
  pub registers : ProcessState
  pub control : Control
  pub scheduler_locked : Bool

-- The selectors that the GDT gives for the user segments.
pub record Selectors : Type 0 where
  pub user_code_selector : ℕ
  pub user_data_selector : ℕ

-- `(cs, ds)` with requested privilege level 3.
unfoldable pub set_usermode_segments : Selectors → ℕ × ℕ
set_usermode_segments g = (bit_or g.user_code_selector 3, bit_or g.user_data_selector 3)

-- The `iretq` frame: data segment, stack, flags 0x200, code segment, entry point.
unfoldable pub switch_to_usermode : Selectors → Process → Machine → Machine
unfolding set_usermode_segments
switch_to_usermode g p m =
    let (cs_index, ds_index) = set_usermode_segments g in
    record m { control = user p.entry_offset cs_index 0x200 userspace_stack ds_index }

-- Saves the registers; a call that is not yet resumed returns `false`.
-- Each register goes through `rcx` into its field, one after another.
unfoldable pub deactivate : Machine → Process → Process × Bool
deactivate m p =
    let state0 : ProcessState = record {
      rbx = 0;
      rbp = 0;
      r12 = 0;
      r13 = 0;
      r14 = 0;
      r15 = 0;
      rsp = 0;
    } in
    let state1 : ProcessState = record state0 { rbx = m.registers.rbx } in
    let state2 : ProcessState = record state1 { rbp = m.registers.rbp } in
    let state3 : ProcessState = record state2 { r12 = m.registers.r12 } in
    let state4 : ProcessState = record state3 { r13 = m.registers.r13 } in
    let state5 : ProcessState = record state4 { r14 = m.registers.r14 } in
    let state6 : ProcessState = record state5 { r15 = m.registers.r15 } in
    let state : ProcessState = record state6 { rsp = m.registers.rsp } in
    (record p { process_state = some state }, false)

-- `add rsp, 0xc8; ret`: the return address is popped from `rsp + 0xc8`.
abbrev pub return_slot : ℕ → ℕ
return_slot rsp = (rsp + 0xc8) % u64_mod

abbrev pub restore : Option ProcessState → Selectors → Process → Machine → Machine
restore none g p m = switch_to_usermode g p m
restore (some s) g p m =
    let registers1 : ProcessState = record m.registers { rbx = s.rbx } in
    let registers2 : ProcessState = record registers1 { rbp = s.rbp } in
    let registers3 : ProcessState = record registers2 { r12 = s.r12 } in
    let registers4 : ProcessState = record registers3 { r13 = s.r13 } in
    let registers5 : ProcessState = record registers4 { r14 = s.r14 } in
    let registers6 : ProcessState = record registers5 { r15 = s.r15 } in
    let registers7 : ProcessState = record registers6 { rsp = s.rsp } in
    record m {
      registers = record registers7 { rsp = (return_slot registers7.rsp + 8) % u64_mod };
      control = resumed (return_slot registers7.rsp);
    }

-- `PhysFrame::containing_address` rounds the table's address down to its frame.
unfoldable pub activate : Selectors → Process → Machine → Machine
activate g p m =
    restore p.process_state g p
      (record m { cr3 = p.page_table_addr - p.page_table_addr % 0x1000; interrupts = true })
