-- ===== src/Scheduler/Spec.antt =====
-- What the search of `get_next_task` is to find, with no index arithmetic and no loop: tasks are
-- taken in a circle that starts behind the current one; the first ready task is chosen, waiting
-- tasks before it stay, and finished tasks before it are gone.
use lobster_os_legacy.Prelude.{
  ℕ, ◌+◌, ◌≡◌, Option, none, some, List, [], ◌∷◌, ◌++◌, length, take, drop, All, ◌≢◌, Profile,
  release, ◌⊎◌,
}
use lobster_os_legacy.Scheduler.{TaskState, Task, Scheduler}

-- The waiting tasks that a search passes over, the ready task that ends it, and the tasks behind.
pub record Found : Type 0 where
  pub skipped : List Task
  pub task : Task
  pub rest : List Task

abbrev pub skip : Task → Option Found → Option Found
skip t none = none
skip t (some r) = some (record r { skipped = t ∷ r.skipped })

-- By the state of the head; a running task is not expected.
abbrev pub first_ready_at : TaskState → Task → List Task → Option Found → Option Found
first_ready_at TaskState.ready t ts found = some (record { skipped = []; task = t; rest = ts })
first_ready_at TaskState.done t ts found = found
first_ready_at TaskState.waiting t ts found = skip t found
first_ready_at TaskState.running t ts found = skip t found

abbrev pub first_ready : List Task → Option Found
first_ready [] = none
first_ready (t ∷ ts) = first_ready_at t.state t ts (first_ready ts)

abbrev pub keep : TaskState → Task → List Task → List Task
keep TaskState.done t ts = ts
keep _ t ts = t ∷ ts

-- The list without its finished tasks.
abbrev pub prune : List Task → List Task
prune [] = []
prune (t ∷ ts) = keep t.state t (prune ts)

abbrev pub placed : Scheduler → List Task → Found → Scheduler × ℕ
placed s front r =
    let at = length front + length r.skipped in
    (record s { tasks = front ++ (r.skipped ++ (r.task ∷ r.rest)); current_task = at }, at)

-- The scheduler after the choice, with the index of the chosen task.
abbrev pub next_ready : Scheduler → Option (Scheduler × ℕ)
next_ready s =
    let before = take (s.current_task + 1) s.tasks in
    let after = drop (s.current_task + 1) s.tasks in
    elim (first_ready after) [
      | some r ↦ some (placed s before r)
      | none ↦ elim (first_ready (before ++ prune after)) [
        | some r ↦ some (placed s [] r)
        | none ↦ none
      ]
    ]

abbrev pub NoneRunning : List Task → Type 0
NoneRunning = All (λ t. t.state ≢ TaskState.running)

-- No finished task at the front.
abbrev pub HeadLives : List Task → Type 0
HeadLives [] = Unit
HeadLives (t ∷ ts) = t.state ≢ TaskState.done

-- Either `usize` subtraction wraps, or it never meets a 0: the removal of a finished task at index
-- 0 takes 1 from 0.
abbrev pub Steps : Profile → List Task → Type 0
Steps p ts = (p ≡ release) ⊎ HeadLives ts

abbrev pub AnyReady : List Task → Type 0
AnyReady [] = ⊥
AnyReady (t ∷ ts) = (t.state ≡ TaskState.ready) ⊎ AnyReady ts
