-- ===== src/Scheduler/Queue.antt =====
-- The task list as a collection of processes: `push_task` and `end_task`.
use lobster_os_legacy.Prelude.{
  ℕ, ◌+◌, ◌≤◌, ◌<◌, ◌≡◌, ◌≢◌, ◌⊎◌, inl, inr, refl, Option, none, some, List, [], ◌∷◌, ◌++◌, arith,
  All, All-append, ok, ◌>>=◌, Profile, u64_mod, add_mod-ok, ◌==◌, Bool-cases,
}
use lobster_os_legacy.Process.{Process}
use lobster_os_legacy.Scheduler.{
  TaskState, Task, Scheduler, push_task, end_task, ended, kill, TaskKillError, does_not_exist,
}

-- Every number in use was given out before.
abbrev pub IdsBelow : Scheduler → Type 0
IdsBelow s = All (λ t. t.pid ≤ s.next_task_id) s.tasks

All-weaken : (n k : ℕ) (ts : List Task) → n ≤ k → All (λ t. t.pid ≤ n) ts → All (λ t. t.pid ≤ k) ts
All-weaken n k [] l a = tt
All-weaken n k (t ∷ ts) l a = (omega arith, All-weaken n k ts l a.1)

All-fresh : (n : ℕ) (ts : List Task) → All (λ t. t.pid ≤ n) ts → All (λ t. t.pid ≢ n + 1) ts
All-fresh n [] a = tt
All-fresh n (t ∷ ts) a = (λ e. absurd (omega arith), All-fresh n ts a.1)

-- While every process id is below the next one, and that is below 2^64 - 2, `push_task` returns a
-- process id that no task has, puts the process behind the others, ready and under that id,
-- changes none of them, and stays within the ids given out.
pub push_task-fresh :
    (p : Profile) (process : Process) (s : Scheduler)
    → IdsBelow s
    → s.next_task_id + 2 < u64_mod
    → (s' : Scheduler) × (pid : ℕ) × (push_task p process s ≡ ok (s', pid))
      × All (λ t. t.pid ≢ pid) s.tasks
      × (s'.tasks
          ≡ s.tasks ++ (record { state = TaskState.ready; process = process; pid = pid } ∷ []))
      × IdsBelow s'
unfolding push_task
push_task-fresh p process s below l =
    let n = s.next_task_id in
    let task : Task = record { state = TaskState.ready; process = process; pid = n + 1 } in
    (
      record s { tasks = s.tasks ++ (task ∷ []); next_task_id = n + 1 + 1 },
      n + 1,
      rw (add_mod-ok p u64_mod n 1 (omega arith), ◌>>=◌)
          (rw (add_mod-ok p u64_mod (n + 1) 1 (omega arith), ◌>>=◌)),
      All-fresh n s.tasks below,
      refl,
      All-append _ s.tasks (task ∷ []) (All-weaken n (n + 1 + 1) s.tasks (omega arith) below)
          (omega arith, tt),
    )

-- One task of the list, the first with the number, is put into the done state.
pub data Killed (pid : ℕ) : List Task → List Task → Type 0 where
  here :
      {t : Task} {ts : List Task}
      → t.pid ≡ pid
      → Killed pid (t ∷ ts) (record t { state = TaskState.done } ∷ ts)
  there :
      {t : Task} {ts us : List Task} → t.pid ≢ pid → Killed pid ts us → Killed pid (t ∷ ts) (t ∷ us)

-- What `kill` answers.
data Answer (pid : ℕ) (ts : List Task) : Option (List Task) → Type 0 where
  found : {us : List Task} → Killed pid ts us → Answer pid ts (some us)
  missing : All (λ t. t.pid ≢ pid) ts → Answer pid ts none

kill-Answer : (pid : ℕ) (ts : List Task) → Answer pid ts (kill pid ts)
kill-Answer pid [] = missing tt
kill-Answer pid (t ∷ ts) = elim (Bool-cases (t.pid == pid)) [
  | inl e ↦ rw (e, kill) (found (here (ground arith)))
  | inr e ↦ rw (e, kill) (further (kill pid ts) (λ q. ground arith) (kill-Answer pid ts))
]
  where
    further :
        (o : Option (List Task))
        → t.pid ≢ pid
        → Answer pid ts o
        → Answer pid (t ∷ ts) (elim o [ none ↦ none | some ts' ↦ some (t ∷ ts') ])
    further o ne (found k) = found (there ne k)
    further o ne (missing a) = missing (ne, a)

-- `end_task` marked one task and nothing else, or said that there is none and changed nothing.
abbrev pub Ended : ℕ → Scheduler → Scheduler × Option TaskKillError → Type 0
Ended pid s r =
    ((r.1 ≡ none) × Killed pid s.tasks (r.0).tasks × (r.0 ≡ record s { tasks = (r.0).tasks }))
    ⊎ ((r.1 ≡ some does_not_exist) × (r.0 ≡ s) × All (λ t. t.pid ≢ pid) s.tasks)

ended-Ended :
    (pid : ℕ) (s : Scheduler) (o : Option (List Task))
    → Answer pid s.tasks o
    → Ended pid s (ended s o)
ended-Ended pid s o (found k) = inl (refl, k, refl)
ended-Ended pid s o (missing a) = inr (refl, refl, a)

-- `end_task` puts the first task with the process id into the done state and changes nothing else;
-- where no task has the id it says so and changes nothing.
pub end_task-Ended : (pid : ℕ) (s : Scheduler) → Ended pid s (end_task pid s)
unfolding end_task
end_task-Ended pid s = ended-Ended pid s (kill pid s.tasks) (kill-Answer pid s.tasks)
