-- ===== src/Scheduler/Stuck.antt =====
-- Where the search of `get_next_task` comes to no task: the exit of the only process, and a block
-- with every other process blocked.
use lobster_os_legacy.Prelude.{
  get_elem?-lt, ℕ, zero, suc, ◌+◌, ◌-◌, ◌<◌, ◌≡◌, ◌≢◌, refl, ap, ◌∙◌, some, List, [], ◌∷◌, arith,
  length, length-set, get_elem?, set, panic, out_of_fuel, ◌>>=◌, Profile, debug, release, u64_mod,
  All, leb, if◌then◌else◌, All-set,
}
use lobster_os_legacy.Process.{Machine, Selectors, deactivate}
use lobster_os_legacy.Scheduler.{
  TaskState, Task, Scheduler, advance, visit, next_loop, get_next_task, pick, block_current,
  end_current_task,
}
use lobster_os_legacy.Scheduler.Moves.{advance_from}
use lobster_os_legacy.Scheduler.Next.{get_next_task-ne-nil}
use lobster_os_legacy.Scheduler.Swap.{swap_tasks-mark}

-- With no task left the loop has no way out.
next_loop-nil : (f : ℕ) (s : Scheduler) → s.tasks ≡ [] → next_loop release f s ≡ out_of_fuel
unfolding next_loop advance
next_loop-nil zero s e = refl
next_loop-nil (suc f) s e =
    let r : Scheduler = record s { current_task = 0 } in ground (arith, next_loop-nil f r e)

-- A scheduler whose only process is the current one.
abbrev pub only : Task → Scheduler → Scheduler
only t s = record s { tasks = t ∷ []; current_task = 0 }

module _ (g : Selectors) (f : ℕ) (s : Scheduler) (m : Machine) (t : Task) where
  -- The exit of the only process: with overflow checks the kernel panics, since the removal of the
  -- finished task at index 0 takes 1 from 0; without them the search goes on without end, whatever
  -- the fuel. In neither build does it come to the halt loop that waits for an interrupt.
  pub end_current_task-only :
      (end_current_task debug g (suc f) (only t s) m ≡ panic)
      × (end_current_task release g f (only t s) m ≡ out_of_fuel)
  unfolding end_current_task pick get_next_task next_loop advance visit
  end_current_task-only = (refl, never f)
    where
      never : (k : ℕ) → end_current_task release g k (only t s) m ≡ out_of_fuel
      never zero = refl
      never (suc k) =
          let gone : Scheduler = record s {
            tasks = [];
            current_task = u64_mod - 1;
            current_task_ticks = 0;
          } in
          rw (next_loop-nil k gone refl)

AllWaiting : List Task → Type 0
AllWaiting = All (λ t. t.state ≡ TaskState.waiting)

AllWaiting-get :
    (ts : List Task) (i : ℕ)
    → AllWaiting ts
    → i < length ts
    → (t : Task) × (get_elem? ts i ≡ some t) × (t.state ≡ TaskState.waiting)
unfolding AllWaiting
AllWaiting-get [] i a l = absurd (omega arith)
AllWaiting-get (t ∷ ts) zero a l = (t, refl, a.0)
AllWaiting-get (t ∷ ts) (suc i) a l = AllWaiting-get ts i a.1 (omega arith)

-- Where every task waits the loop goes round without end.
next_loop-AllWaiting :
    (p : Profile) (f : ℕ) (s : Scheduler)
    → AllWaiting s.tasks
    → length s.tasks < u64_mod
    → s.current_task < length s.tasks
    → next_loop p f s ≡ out_of_fuel
unfolding next_loop visit
next_loop-AllWaiting p zero s a l i = refl
next_loop-AllWaiting p (suc f) s a l i =
    let c = if leb (length s.tasks) (s.current_task + 1) then 0 else s.current_task + 1 in
    let in_range : c < length s.tasks = ground arith in
    let (t, look, e) = AllWaiting-get s.tasks c a in_range in
    rw (advance_from p s s.current_task refl (omega arith), ◌>>=◌, look, e)
      (next_loop-AllWaiting p f (record s { current_task = c }) a l in_range)

-- A block of the current one of fewer than 2^64 processes while every other process waits: the
-- search does not end with any fuel, in either build.
pub block_current_AllWaiting :
    (p : Profile) (g : Selectors) (f : ℕ) (s : Scheduler) (m : Machine) (t : Task)
    → get_elem? s.tasks s.current_task ≡ some t
    → ((i : ℕ) (u : Task)
        → get_elem? s.tasks i ≡ some u
        → i ≢ s.current_task
        → u.state ≡ TaskState.waiting)
    → length s.tasks < u64_mod
    → block_current p g f s m ≡ out_of_fuel
unfolding block_current pick AllWaiting
block_current_AllWaiting p g f s m t look others l =
    let c = s.current_task in
    let u : Task = record t { state = TaskState.waiting; process = (deactivate m t.process).0 } in
    let len = length-set s.tasks c u in
    let z : Scheduler = record s { tasks = set s.tasks c u; current_task_ticks = 0 } in
    let stuck : next_loop p f z ≡ out_of_fuel =
      next_loop-AllWaiting p f z (All-set _ c u s.tasks refl others) (omega (arith, len))
        (omega (arith, len, get_elem?-lt s.tasks c look)) in
    let in_range = get_elem?-lt s.tasks c look in
    let kept : get_next_task p f z ≡ out_of_fuel =
      get_next_task-ne-nil p f z z.tasks refl
        (λ e. absurd (omega (arith, ap (λ (ts : List Task). length ts) e, len)))
      ∙ stuck in
    swap_tasks-mark p g f s m TaskState.waiting t look ∙ (rw kept)
