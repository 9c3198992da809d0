-- ===== src/Scheduler/Inv.antt =====
-- A scheduler at work: one task runs, and timer ticks keep it so.
use native.Mathlib.Decide.{dec_lt}
use lobster_os_legacy.Prelude.{
  get_elem?-lt, ℕ, zero, suc, ◌+◌, ◌*◌, ◌<◌, ◌≤◌, ◌≡◌, ◌≢◌, ◌⊎◌, inl, inr, refl, ap, ◌∙◌, some,
  true, false, List, [], ◌∷◌, arith, length, length-set, get_elem?, set, Run, ok, ◌>>=◌, Profile,
  u64_mod,
}
use lobster_os_legacy.Process.{Machine, Selectors, deactivate, activate}
use lobster_os_legacy.Scheduler.{
  TaskState, Task, Scheduler, quantum, pick, preempt, tick, timer_interrupt_handler,
}
use lobster_os_legacy.Scheduler.Spec.{NoneRunning, Steps, AnyReady, next_ready}
use lobster_os_legacy.Scheduler.Next.{get_next_task-eq-next_ready}
use lobster_os_legacy.Scheduler.Chosen.{next_ready-Chosen}
use lobster_os_legacy.Scheduler.Swap.{
  saved, swap_tasks-mark, pick-ok, run_current_lem, tick_counts, tick_preempts,
}
use lobster_os_legacy.Scheduler.Live.{
  IsLive, NoneRunning-set, AnyReady-set, Steps-set, Steps-Chosen, IsLive-run,
}

-- The scheduler in which the successor is looked for: the quantum starts anew, and task `t`, which
-- ran, is in state `st` with its context saved.
abbrev pub requeued : TaskState → Scheduler → Machine → Task → Scheduler
requeued st s m t = record s {
  tasks =
      set s.tasks s.current_task (record t { state = st; process = (deactivate m t.process).0 });
  current_task_ticks = 0;
}

-- The machine and the scheduler after a switch to the chosen task.
abbrev pub switched : Selectors → Machine → Scheduler → Task → Scheduler × Machine
switched g m s u = (
  record s { tasks = set s.tasks s.current_task (record u { state = TaskState.running }) },
  activate g u.process (record m { scheduler_locked = false }),
)

-- A switch away from the current task, which has left the running state: the successor is the one
-- that the specification finds, it runs in its own context, and the lock is free.
pub record Switches (p : Profile) (g : Selectors) (m : Machine) (s : Scheduler)
    (out : Scheduler × Machine) : Type 0 where
  pub r : Scheduler × ℕ
  pub found : next_ready s ≡ some r
  pub task : Task
  pub look : get_elem? r.0.tasks r.0.current_task ≡ some task
  pub was_ready : task.state ≡ TaskState.ready
  pub result : out ≡ switched g m r.0 task
  pub live : IsLive p out.0
  pub shorter : length out.0.tasks ≤ length s.tasks

AnyReady-ne-nil : (ts : List Task) → AnyReady ts → ts ≢ []
AnyReady-ne-nil [] a e = a
AnyReady-ne-nil (t ∷ ts) a e = cc

module _ (p : Profile) (g : Selectors) (f : ℕ) (s : Scheduler) (m : Machine) where
  pick-Switches :
      AnyReady s.tasks
      → NoneRunning s.tasks
      → Steps p s.tasks
      → length s.tasks < u64_mod
      → s.current_task < length s.tasks
      → s.is_enabled ≡ true
      → 2 * length s.tasks ≤ f
      → (out : Scheduler × Machine) × (pick p g f s m ≡ ok out)
        × Switches p g m (record s { current_task_ticks = 0 }) out
  pick-Switches any n st l i e fuel =
      let z : Scheduler = record s { current_task_ticks = 0 } in
      let (r, found, got) = get_next_task-eq-next_ready p f z any n st l (omega arith) fuel in
      let ch = next_ready-Chosen p z r (AnyReady-ne-nil s.tasks any) found in
      let look : get_elem? r.0.tasks r.0.current_task ≡ some ch.task = rw ch.index ch.look in
      let out : Scheduler × Machine = switched g m r.0 ch.task in
      (
        out,
        pick-ok p g f s m r got ∙ ap ok (run_current_lem p g f r.0 m ch.task look),
        record {
          r = r;
          found = found;
          task = ch.task;
          look = look;
          was_ready = ch.is_ready;
          result = refl;
          live =
              IsLive-run p r.0 ch.task look (ch.none_running n) (omega (arith, ch.shorter))
                (omega (arith, ch.ticks)) (ch.enabled ∙ e) (Steps-Chosen p z r ch st);
          shorter = omega (
            arith,
            ch.shorter,
            length-set r.0.tasks r.0.current_task (record ch.task { state = TaskState.running }),
          );
        },
      )

module _ (p : Profile) (g : Selectors) (f : ℕ) (s : Scheduler) (m : Machine) (v : IsLive p s) where
  -- What a tick does: it counts, or at the end of the quantum it switches.
  abbrev pub Ticks : Scheduler × Machine → Type 0
  Ticks out =
      ((s.current_task_ticks + 1 < quantum)
        × (out ≡ (record s { current_task_ticks = s.current_task_ticks + 1 }, m)))
      ⊎ ((s.current_task_ticks + 1 ≡ quantum)
          × Switches p g m (requeued TaskState.ready s m v.current) out)

  -- A timer tick at a scheduler that is at work: `tick` neither panics nor hangs; within the
  -- quantum it only counts, and at the 20th tick the running task goes back to ready with its
  -- context saved and the successor that the specification finds runs, in its own context, with a
  -- new quantum and the lock free. The scheduler is at work again in either case.
  pub tick-IsLive :
      2 * length s.tasks ≤ f
      → (out : Scheduler × Machine) × (tick p g f s m ≡ ok out)
        × Ticks out
        × IsLive p out.0
        × (length out.0.tasks ≤ length s.tasks)
  unfolding preempt
  tick-IsLive fuel = elim (dec_lt (s.current_task_ticks + 1) quantum) [
    | yes h ↦ (
      (record s { current_task_ticks = s.current_task_ticks + 1 }, m),
      tick_counts p g f s m v.enabled h,
      inl (h, refl),
      record {
        current = v.current;
        look = v.look;
        runs = v.runs;
        alone = v.alone;
        small = v.small;
        ticks = h;
        enabled = v.enabled;
        steps = v.steps;
      },
      omega arith,
    )
    | no h ↦
        let last : s.current_task_ticks + 1 ≡ quantum = omega (arith, v.ticks) in
        let u : Task = record v.current {
          state = TaskState.ready;
          process = (deactivate m v.current.process).0;
        } in
        let c = s.current_task in
        let in_range = get_elem?-lt s.tasks c v.look in
        let full : Scheduler = record s { current_task_ticks = quantum } in
        let len = length-set s.tasks c u in
        let (out, run, sw) =
          pick-Switches p g f (saved p g f full m TaskState.ready v.current) m
            (AnyReady-set c u s.tasks refl in_range)
            (NoneRunning-set c u s.tasks v.alone (λ e. cc) in_range)
            (Steps-set p c u s.tasks (λ e. cc) v.steps) (omega (arith, len, v.small))
            (omega (arith, len)) v.enabled (omega (arith, len)) in
        (
          out,
          tick_preempts p g f s m v.enabled last
              ∙ swap_tasks-mark p g f full m TaskState.ready v.current v.look
              ∙ run,
          inr (last, sw),
          sw.live,
          omega (arith, sw.shorter, len),
        )
  ]

-- Any number of timer interrupts.
unfoldable pub ticks : Profile → Selectors → ℕ → ℕ → Scheduler × Machine → Run (Scheduler × Machine)
ticks p g f zero (s, m) = ok (s, m)
ticks p g f (suc n) (s, m) = do out ← timer_interrupt_handler p g f s m; ticks p g f n out

interrupt-IsLive :
    (p : Profile) (g : Selectors) (f : ℕ) (s : Scheduler) (m : Machine)
    → IsLive p s
    → m.scheduler_locked ≡ false
    → 2 * length s.tasks ≤ f
    → (out : Scheduler × Machine) × (timer_interrupt_handler p g f s m ≡ ok out)
      × IsLive p out.0
      × (out.1.scheduler_locked ≡ false)
      × (length out.0.tasks ≤ length s.tasks)
unfolding timer_interrupt_handler
interrupt-IsLive p g f s m v free fuel =
    let (out, run, what, live, len) =
      tick-IsLive p g f s (record m { scheduler_locked = true }) v fuel in
    ((out.0, record (out.1) { scheduler_locked = false }), rw (free, run, ◌>>=◌), live, refl, len)

-- From a scheduler at work with its lock free, and with fuel for two rounds over its tasks, any
-- number of timer interrupts in a row is handled: none panics, none waits for the lock without
-- end, and the scheduler is at work after each.
pub ticks-IsLive :
    (p : Profile) (g : Selectors) (f n : ℕ) (s : Scheduler) (m : Machine)
    → IsLive p s
    → m.scheduler_locked ≡ false
    → 2 * length s.tasks ≤ f
    → (out : Scheduler × Machine) × (ticks p g f n (s, m) ≡ ok out)
      × IsLive p out.0
      × (out.1.scheduler_locked ≡ false)
unfolding ticks
ticks-IsLive p g f zero s m v free fuel = ((s, m), refl, v, free)
ticks-IsLive p g f (suc n) s m v free fuel =
    let (o, run, live, free', len) = interrupt-IsLive p g f s m v free fuel in
    let (out, rest, live', free'') = ticks-IsLive p g f n o.0 o.1 live free' (omega (arith, len)) in
    (out, rw (run, ◌>>=◌) rest, live', free'')
