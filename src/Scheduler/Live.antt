-- ===== src/Scheduler/Live.antt =====
-- What it takes for the scheduler to go on for ever, and how its tasks may change.
use lobster_os_legacy.Prelude.{
  get_elem?-lt, ℕ, zero, suc, ◌<◌, ◌≡◌, ◌≢◌, inl, inr, refl, ap, some, true, List, [], ◌∷◌, arith,
  length, length-set, get_elem?, get_elem?-set_self, set, Profile, u64_mod,
}
use lobster_os_legacy.Scheduler.{TaskState, Task, Scheduler, quantum}
use lobster_os_legacy.Scheduler.Spec.{NoneRunning, HeadLives, Steps, AnyReady}
use lobster_os_legacy.Scheduler.Chosen.{Chosen}

-- Nothing but the task at index `c` is running.
abbrev pub OnlyAt : ℕ → List Task → Type 0
OnlyAt c ts = (i : ℕ) (t : Task) → get_elem? ts i ≡ some t → t.state ≡ TaskState.running → i ≡ c

pub record IsLive (p : Profile) (s : Scheduler) : Type 0 where
  pub current : Task
  pub look : get_elem? s.tasks s.current_task ≡ some current
  pub runs : current.state ≡ TaskState.running
  pub alone : OnlyAt s.current_task s.tasks
  pub small : length s.tasks < u64_mod
  pub ticks : s.current_task_ticks < quantum
  pub enabled : s.is_enabled ≡ true
  pub steps : Steps p s.tasks

pub NoneRunning-set :
    (c : ℕ) (x : Task) (ts : List Task)
    → OnlyAt c ts
    → x.state ≢ TaskState.running
    → c < length ts
    → NoneRunning (set ts c x)
NoneRunning-set c x [] o n l = tt
NoneRunning-set zero x (t ∷ ts) o n l = (n, rest ts (λ i u h r. o (suc i) u h r))
  where
    rest :
        (us : List Task)
        → ((i : ℕ) (u : Task) → get_elem? us i ≡ some u → u.state ≡ TaskState.running → suc i ≡ 0)
        → NoneRunning us
    rest [] h = tt
    rest (u ∷ us) h = (
      λ e. absurd (omega (arith, h 0 u refl e)),
      rest us (λ i v g r. absurd (omega (arith, h (suc i) v g r))),
    )
NoneRunning-set (suc c) x (t ∷ ts) o n l = (
  λ e. absurd (omega (arith, o 0 t refl e)),
  NoneRunning-set c x ts (λ i u h r. omega (arith, o (suc i) u h r)) n (omega arith),
)

OnlyAt-set : (c : ℕ) (x : Task) (ts : List Task) → NoneRunning ts → OnlyAt c (set ts c x)
OnlyAt-set c x [] n i t h r = cc
OnlyAt-set zero x (y ∷ ts) n zero t h r = refl
OnlyAt-set zero x (y ∷ ts) n (suc i) t h r = absurd (none_at ts i n.1 h)
  where
    none_at : (us : List Task) (j : ℕ) → NoneRunning us → get_elem? us j ≡ some t → ⊥
    none_at [] j m g = cc
    none_at (u ∷ us) zero m g = m.0 (ground arith)
    none_at (u ∷ us) (suc j) m g = none_at us j m.1 g
OnlyAt-set (suc c) x (y ∷ ts) n zero t h r = absurd (n.0 (ground arith))
OnlyAt-set (suc c) x (y ∷ ts) n (suc i) t h r = ap suc (OnlyAt-set c x ts n.1 i t h r)

pub AnyReady-set :
    (c : ℕ) (x : Task) (ts : List Task)
    → x.state ≡ TaskState.ready
    → c < length ts
    → AnyReady (set ts c x)
AnyReady-set c x [] e l = absurd (omega arith)
AnyReady-set zero x (t ∷ ts) e l = inl e
AnyReady-set (suc c) x (t ∷ ts) e l = inr (AnyReady-set c x ts e (omega arith))

HeadLives-set :
    (c : ℕ) (x : Task) (ts : List Task)
    → x.state ≢ TaskState.done
    → HeadLives ts
    → HeadLives (set ts c x)
HeadLives-set c x [] e h = tt
HeadLives-set zero x (t ∷ ts) e h = e
HeadLives-set (suc c) x (t ∷ ts) e h = h

pub Steps-set :
    (p : Profile) (c : ℕ) (x : Task) (ts : List Task)
    → x.state ≢ TaskState.done
    → Steps p ts
    → Steps p (set ts c x)
Steps-set p c x ts e (inl h) = inl h
Steps-set p c x ts e (inr h) = inr (HeadLives-set c x ts e h)

pub Steps-Chosen :
    (p : Profile) (s : Scheduler) (r : Scheduler × ℕ)
    → Chosen p s r
    → Steps p s.tasks
    → Steps p r.0.tasks
Steps-Chosen p s r ch (inl h) = inl h
Steps-Chosen p s r ch (inr h) = inr (ch.head h)

-- A scheduler that stands at a ready task, none running: that task is made to run.
pub IsLive-run :
    (p : Profile) (s : Scheduler) (t : Task)
    → get_elem? s.tasks s.current_task ≡ some t
    → NoneRunning s.tasks
    → length s.tasks < u64_mod
    → s.current_task_ticks < quantum
    → s.is_enabled ≡ true
    → Steps p s.tasks
    → IsLive p
        (record s { tasks = set s.tasks s.current_task (record t { state = TaskState.running }) })
IsLive-run p s t h n l q e st =
    let u : Task = record t { state = TaskState.running } in
    record {
      current = u;
      look = get_elem?-set_self s.tasks s.current_task u (get_elem?-lt s.tasks s.current_task h);
      runs = refl;
      alone = OnlyAt-set s.current_task u s.tasks n;
      small = omega (arith, length-set s.tasks s.current_task u);
      ticks = q;
      enabled = e;
      steps = Steps-set p s.current_task u s.tasks (λ d. cc) st;
    }
