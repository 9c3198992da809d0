-- ===== src/Scheduler.antt =====
-- The round-robin scheduler of src/threading/scheduler.rs, and its caller in the timer interrupt
-- handler of src/interrupts.rs. A method takes the scheduler and the machine and returns both.
-- `get_next_task` loops until it meets a ready task: it runs on fuel, and `Next` shows how much is
-- enough. `usize` arithmetic follows the build profile.
pub mod Spec
pub mod Moves
pub mod Pass
pub mod Pruned
pub mod Next
pub mod Chosen
pub mod Swap
pub mod Live
pub mod Inv
pub mod Stuck
pub mod Queue
mod Tests
use lobster_os_legacy.Prelude.{
  ℕ, zero, suc, ◌+◌, ◌-◌, ◌≡◌, Option, none, some, Bool, true, false, not, List, [], ◌∷◌, ◌++◌, leb,
  ◌==◌, if◌then◌else◌, length, get_elem?, set, remove, Run, ok, panic, out_of_fuel, ◌>>=◌, expect,
  Profile, add_mod, sub_mod, u32_mod, u64_mod,
}
use lobster_os_legacy.Process.{
  Process, Machine, Control, kernel, halted, Selectors, deactivate, activate,
}

abbrev pub quantum : ℕ
quantum = 20

pub data TaskState : Type 0 where
  ready running waiting done : TaskState

-- `PID` is its number.
pub record Task : Type 0 where
  pub state : TaskState
  pub process : Process
  pub pid : ℕ

pub record Scheduler : Type 0 where
  pub tasks : List Task
  pub current_task_ticks : ℕ
  pub next_task_id : ℕ
  pub current_task : ℕ
  pub is_enabled : Bool

-- The static `SCHEDULER`: `usize::MAX - 1` stands for no current task.
abbrev pub initial : Scheduler
initial = record {
  tasks = [];
  current_task_ticks = 0;
  next_task_id = 0;
  current_task = u64_mod - 2;
  is_enabled = false;
}

unfoldable pub enable : Scheduler → Scheduler
enable s = record s { is_enabled = true }

-- Sets the state of the task at an index, if there is one.
abbrev pub mark : ℕ → TaskState → List Task → List Task
mark i st ts = elim (get_elem? ts i) [ none ↦ ts | some t ↦ set ts i (record t { state = st }) ]

module _ (p : Profile) where
  -- `current_task += 1`, back to 0 at the end.
  unfoldable pub advance : Scheduler → Run ℕ
  advance s = do
    c ← add_mod p u64_mod s.current_task 1
    ok (if leb (length s.tasks) c then 0 else c)

  -- The match on the task at `current_task`; `again` goes on with the loop.
  unfoldable pub visit :
      (Scheduler → Run (Scheduler × ℕ)) → TaskState → Scheduler → Run (Scheduler × ℕ)
  visit again TaskState.done s = do
    c ← sub_mod p u64_mod s.current_task 1
    again (record s { tasks = remove s.tasks s.current_task; current_task = c })
  visit again TaskState.waiting s = again s
  visit again TaskState.running s = panic
  visit again TaskState.ready s = ok (s, s.current_task)

  unfoldable pub next_loop : ℕ → Scheduler → Run (Scheduler × ℕ)
  unfolding advance visit
  next_loop zero s = out_of_fuel
  next_loop (suc f) s = do
    c ← advance s
    let s' = record s { current_task = c }
    elim (get_elem? s'.tasks c) [ none ↦ next_loop f s' | some t ↦ visit (next_loop f) t.state s' ]

  unfoldable pub get_next_task : ℕ → Scheduler → Run (Scheduler × ℕ)
  get_next_task f s = elim s.tasks [ [] ↦ ok (s, u64_mod - 1) | _ ∷ _ ↦ next_loop f s ]

  module _ (g : Selectors) (fuel : ℕ) where
    -- The second half of `swap_tasks`: the chosen task runs, with the lock released by force.
    unfoldable pub run_current : Scheduler → Machine → Scheduler × Machine
    run_current s m = elim (get_elem? s.tasks s.current_task) [
      | none ↦ (s, m)
      | some t ↦ (
        record s { tasks = mark s.current_task TaskState.running s.tasks },
        activate g t.process (record m { scheduler_locked = false }),
      )
    ]

    unfoldable pub pick : Scheduler → Machine → Run (Scheduler × Machine)
    unfolding run_current
    pick s m = do
      (s', _) ← get_next_task fuel (record s { current_task_ticks = 0 })
      ok (run_current s' m)

    -- The context of the current task, if there is one, is saved first. A call of `deactivate`
    -- that answers `true` is the resumption, in which `swap_tasks` returns at once.
    unfoldable pub swap_tasks : Scheduler → Machine → Run (Scheduler × Machine)
    unfolding pick deactivate
    swap_tasks s m = elim (get_elem? s.tasks s.current_task) [
      | none ↦ pick s m
      | some t ↦
          let (process, is_resumed) = deactivate m t.process in
          let s' = record s {
            tasks = set s.tasks s.current_task (record t { process = process });
          } in
          if is_resumed then ok (s', m) else pick s' m
    ]

    -- The current task goes back to ready before the swap.
    unfoldable pub preempt : Scheduler → Machine → Run (Scheduler × Machine)
    unfolding swap_tasks
    preempt s m = swap_tasks (record s { tasks = mark s.current_task TaskState.ready s.tasks }) m

    -- A tick of the timer; the task is preempted when its quantum is used up.
    unfoldable pub tick : Scheduler → Machine → Run (Scheduler × Machine)
    unfolding preempt
    tick s m = if not s.is_enabled then ok (s, m) else do
      n ← add_mod p u32_mod s.current_task_ticks 1
      let s' = record s { current_task_ticks = n }
      if leb quantum n then preempt s' m else ok (s', m)

    unfoldable pub block_current : Scheduler → Machine → Run (Scheduler × Machine)
    unfolding swap_tasks
    block_current s m =
        swap_tasks (record s { tasks = mark s.current_task TaskState.waiting s.tasks }) m

    -- `hlt_loop` is reached only where `swap_tasks` returns to its caller.
    abbrev pub hlt_loop : Control → Control
    hlt_loop kernel = halted
    hlt_loop c = c

    unfoldable pub end_current_task : Scheduler → Machine → Run (Scheduler × Machine)
    unfolding swap_tasks
    end_current_task s m = do
      _ ← expect (get_elem? s.tasks s.current_task)
      (s', m') ← swap_tasks (record s { tasks = mark s.current_task TaskState.done s.tasks }) m
      ok (s', record m' { control = hlt_loop m'.control })

    -- `SCHEDULER.lock().tick()`: a lock that is taken is waited for without end. The guard is
    -- dropped only if `tick` returns here.
    unfoldable pub timer_interrupt_handler : Scheduler → Machine → Run (Scheduler × Machine)
    unfolding tick
    timer_interrupt_handler s m = if m.scheduler_locked then out_of_fuel else do
      (s', m') ← tick s (record m { scheduler_locked = true })
      ok (s', record m' { scheduler_locked = false })

  -- `next_task_id` is a `u64`.
  unfoldable pub push_task : Process → Scheduler → Run (Scheduler × ℕ)
  push_task process s = do
    pid ← add_mod p u64_mod s.next_task_id 1
    let task : Task = record { state = TaskState.ready; process = process; pid = pid }
    next ← add_mod p u64_mod pid 1
    ok (record s { tasks = s.tasks ++ (task ∷ []); next_task_id = next }, pid)

pub data TaskKillError : Type 0 where
  does_not_exist : TaskKillError

-- Marks the first task with the number; `none` is success.
abbrev pub kill : ℕ → List Task → Option (List Task)
kill pid [] = none
kill pid (t ∷ ts) =
    if t.pid == pid
    then some (record t { state = TaskState.done } ∷ ts)
    else elim (kill pid ts) [ none ↦ none | some ts' ↦ some (t ∷ ts') ]

-- The match on the search's result.
abbrev pub ended : Scheduler → Option (List Task) → Scheduler × Option TaskKillError
ended s none = (s, some does_not_exist)
ended s (some ts) = (record s { tasks = ts }, none)

unfoldable pub end_task : ℕ → Scheduler → Scheduler × Option TaskKillError
end_task pid s = ended s (kill pid s.tasks)
