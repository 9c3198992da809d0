-- ===== src/Scheduler/Tests.antt =====
-- The scheduler at small inputs.
use lobster_os_legacy.Prelude.{
  ℕ, ◌+◌, ◌≤◌, ◌≡◌, ◌≢◌, inl, inr, refl, Option, none, some, true, false, [], ◌∷◌, List, arith,
  get_elem?, zero, suc, length, Run, ok, panic, out_of_fuel, debug, release,
}
use lobster_os_legacy.Process.{
  Process, ProcessState, Machine, Selectors, kernel, activate, deactivate, resumed,
}
use lobster_os_legacy.Process.Context.{SameCalleeSaved, activate-deactivate}
use lobster_os_legacy.Scheduler.{
  TaskState, Task, Scheduler, get_next_task, next_loop, tick, end_current_task, block_current,
}
use lobster_os_legacy.Scheduler.Spec.{next_ready}
use lobster_os_legacy.Scheduler.Next.{get_next_task-eq-next_ready}
use lobster_os_legacy.Scheduler.Live.{IsLive}
use lobster_os_legacy.Scheduler.Inv.{ticks, Ticks, tick-IsLive, ticks-IsLive}
use lobster_os_legacy.Scheduler.Stuck.{only, end_current_task-only, block_current_AllWaiting}

abbrev process : Process
process = record {
  page_table = [];
  process_state = none;
  page_table_addr = 0x5000;
  entry_offset = 0x401000;
  regions = [];
}

abbrev task : TaskState → ℕ → Task
task st n = record { state = st; process = process; pid = n }

abbrev registers : ProcessState
registers = record { rbx = 1; rbp = 2; r12 = 3; r13 = 4; r14 = 5; r15 = 6; rsp = 0x1000 }

abbrev machine : Machine
machine = record {
  cr3 = 0x2000;
  interrupts = false;
  registers = registers;
  control = kernel;
  scheduler_locked = false;
}

abbrev selectors : Selectors
selectors = record { user_code_selector = 0x30; user_data_selector = 0x28 }

abbrev three : List Task
three = task TaskState.ready 1 ∷ task TaskState.running 3 ∷ task TaskState.waiting 5 ∷ []

abbrev busy : Scheduler
busy = record {
  tasks = three;
  current_task_ticks = 19;
  next_task_id = 6;
  current_task = 1;
  is_enabled = true;
}

abbrev idle : Scheduler
idle = record busy {
  tasks = task TaskState.waiting 1 ∷ task TaskState.done 3 ∷ task TaskState.ready 5 ∷ [];
}

get_next_task-eq-next_ready_example :
    (r : Scheduler × ℕ) × (next_ready idle ≡ some r) × (get_next_task debug 6 idle ≡ ok r)
get_next_task-eq-next_ready_example =
    get_next_task-eq-next_ready debug 6 idle (inr (inr (inl refl)))
      ((λ e. cc), ((λ e. cc), ((λ e. cc), tt))) (inr (λ e. cc)) (omega arith) (omega arith)
      (omega arith)

busy-IsLive : IsLive debug busy
busy-IsLive = record {
  current = task TaskState.running 3;
  look = refl;
  runs = refl;
  alone = λ i t h r. only_one i t h r;
  small = omega arith;
  ticks = omega arith;
  enabled = refl;
  steps = inr (λ e. cc);
}
  where
    only_one : (i : ℕ) (t : Task) → get_elem? three i ≡ some t → t.state ≡ TaskState.running → i ≡ 1
    only_one zero t h r = absurd (ground arith)
    only_one (suc zero) t h r = refl
    only_one (suc (suc zero)) t h r = absurd (ground arith)
    only_one (suc (suc (suc i))) t h r = cc

-- The 20th tick of the running task's quantum: task 1, at index 0, is next in the circle.
tick-IsLive_example :
    (out : Scheduler × Machine) × (tick debug selectors 6 busy machine ≡ ok out)
    × Ticks debug selectors 6 busy machine busy-IsLive out
    × IsLive debug out.0
    × (length out.0.tasks ≤ 3)
tick-IsLive_example = tick-IsLive debug selectors 6 busy machine busy-IsLive (omega arith)

abbrev current_after : Run (Scheduler × Machine) → Option ℕ
current_after (ok out) = some out.0.current_task
current_after _ = none

tick_switches : current_after (tick debug selectors 6 busy machine) ≡ some 0
unfolding tick get_next_task next_loop
tick_switches = refl

ticks-IsLive_example :
    (out : Scheduler × Machine) × (ticks debug selectors 6 50 (busy, machine) ≡ ok out)
    × IsLive debug out.0
    × (out.1.scheduler_locked ≡ false)
ticks-IsLive_example = ticks-IsLive debug selectors 6 50 busy machine busy-IsLive refl (omega arith)

block_current_AllWaiting_example :
    block_current release selectors 1000 (only (task TaskState.running 1) busy) machine
    ≡ out_of_fuel
block_current_AllWaiting_example =
    block_current_AllWaiting release selectors 1000 (only (task TaskState.running 1) busy) machine
      (task TaskState.running 1) refl no_other (omega arith)
  where
    no_other :
        (i : ℕ) (u : Task)
        → get_elem? (task TaskState.running 1 ∷ []) i ≡ some u
        → i ≢ 0
        → u.state ≡ TaskState.waiting
    no_other zero u h n = absurd (n refl)
    no_other (suc i) u h n = cc

end_current_task-only_example :
    (end_current_task debug selectors 9 (only (task TaskState.running 1) busy) machine ≡ panic)
    × (end_current_task release selectors 8 (only (task TaskState.running 1) busy) machine
        ≡ out_of_fuel)
end_current_task-only_example =
    end_current_task-only selectors 8 busy machine (task TaskState.running 1)

activate-deactivate_example :
    let (q, answer) = deactivate machine process in
    let m' = activate selectors q machine in
    (answer ≡ false)
    × SameCalleeSaved m'.registers registers
    × (m'.registers.rsp ≡ 0x10d0)
    × (m'.control ≡ resumed 0x10c8)
    × (m'.interrupts ≡ true)
    × (m'.cr3 + 0 ≡ 0x5000)
activate-deactivate_example = activate-deactivate selectors process machine machine
