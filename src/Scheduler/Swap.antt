-- ===== src/Scheduler/Swap.antt =====
-- `swap_tasks`, `tick` and the entry points, step by step.
use lobster_os_legacy.Prelude.{
  get_elem?-lt, ℕ, zero, suc, ◌+◌, ◌<◌, ◌≡◌, refl, ap, some, true, false, List, [], ◌∷◌, arith,
  get_elem?, get_elem?-set_self, set, ok, ◌>>=◌, Profile, u32_mod, add_mod-ok, gt→leb,
}
use lobster_os_legacy.Process.{Machine, Selectors, deactivate, activate}
use lobster_os_legacy.Scheduler.{
  TaskState, Task, Scheduler, quantum, mark, get_next_task, run_current, pick, swap_tasks, preempt,
  tick,
}

set-set {ℓ} : {A : Type ℓ} (xs : List A) (i : ℕ) (v w : A) → set (set xs i v) i w ≡ set xs i w
set-set [] i v w = refl
set-set (x ∷ xs) zero v w = refl
set-set (x ∷ xs) (suc i) v w = ap (◌∷◌ x) (set-set xs i v w)

pub mark_lem :
    (i : ℕ) (st : TaskState) (ts : List Task) (t : Task)
    → get_elem? ts i ≡ some t
    → mark i st ts ≡ set ts i (record t { state = st })
mark_lem i st ts t h = rw (h, mark)

module _ (p : Profile) (g : Selectors) (f : ℕ) (s : Scheduler) (m : Machine) where
  -- The scheduler with the current task put into a state and its context saved.
  abbrev pub saved : TaskState → Task → Scheduler
  saved st t = record s {
    tasks =
        set s.tasks s.current_task (record t { state = st; process = (deactivate m t.process).0 });
  }

  -- The current task's context is saved and the choice follows.
  pub swap_tasks-mark :
      (st : TaskState) (t : Task)
      → get_elem? s.tasks s.current_task ≡ some t
      → swap_tasks p g f (record s { tasks = mark s.current_task st s.tasks }) m
        ≡ pick p g f (saved st t) m
  unfolding swap_tasks
  swap_tasks-mark st t h =
      let t' : Task = record t { state = st } in
      let there : get_elem? (set s.tasks s.current_task t') s.current_task ≡ some t' =
        get_elem?-set_self s.tasks s.current_task t' (get_elem?-lt s.tasks s.current_task h) in
      rw (mark_lem s.current_task st s.tasks t h) (
        rw (there, swap_tasks)
          (ap (λ ts. pick p g f (record s { tasks = ts }) m) (set-set s.tasks s.current_task t' _)))

  -- Once the search succeeds the chosen task runs.
  pub pick-ok :
      (r : Scheduler × ℕ)
      → get_next_task p f (record s { current_task_ticks = 0 }) ≡ ok r
      → pick p g f s m ≡ ok (run_current p g f r.0 m)
  unfolding pick
  pick-ok r h = rw (h, ◌>>=◌)

  pub run_current_lem :
      (t : Task)
      → get_elem? s.tasks s.current_task ≡ some t
      → run_current p g f s m ≡ (
        record s { tasks = set s.tasks s.current_task (record t { state = TaskState.running }) },
        activate g t.process (record m { scheduler_locked = false }),
      )
  unfolding run_current
  run_current_lem t h =
      rw (h, run_current)
        (ap
          (λ ts.
            (record s { tasks = ts }, activate g t.process (record m { scheduler_locked = false })))
          (mark_lem s.current_task TaskState.running s.tasks t h))

  -- A tick within the quantum only counts.
  pub tick_counts :
      s.is_enabled ≡ true
      → s.current_task_ticks + 1 < quantum
      → tick p g f s m ≡ ok (record s { current_task_ticks = s.current_task_ticks + 1 }, m)
  unfolding tick
  tick_counts e h = rw (
    e,
    add_mod-ok p u32_mod s.current_task_ticks 1 (omega arith),
    ◌>>=◌,
    gt→leb quantum (s.current_task_ticks + 1) h,
  )

  -- The last tick of the quantum preempts the current task.
  pub tick_preempts :
      s.is_enabled ≡ true
      → s.current_task_ticks + 1 ≡ quantum
      → tick p g f s m ≡ preempt p g f (record s { current_task_ticks = quantum }) m
  unfolding tick
  tick_preempts e h = rw (e, add_mod-ok p u32_mod s.current_task_ticks 1 (omega arith), ◌>>=◌, h)
