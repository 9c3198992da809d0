-- ===== src/Executor.antt =====
-- The asynchronous executor: src/task.rs and src/task/executor.rs, with the keyboard of
-- src/task/keyboard.rs and src/interrupts.rs in `Keyboard`.
-- A future is a parameter: what it does when it is polled. Wakers put the number of their task into
-- the queue that the executor shares with them.
pub mod Keyboard
pub mod Stream
pub mod Ready
mod Loop
mod Keypresses
mod Tests
use lobster_os_legacy.Prelude.{
  ℕ, zero, suc, ◌+◌, ◌%◌, ◌^◌, Option, none, some, Bool, true, false, List, [], ◌∷◌, ◌++◌, ◌==◌,
  ltb, if◌then◌else◌, length, Run, ok, panic, out_of_fuel, ◌>>=◌, u64_mod,
}

-- `ArrayQueue::push` of a queue with a capacity: the queue, or nothing if it is full.
abbrev pub queue_push {ℓ} : {A : Type ℓ} → ℕ → List A → A → Option (List A)
queue_push capacity queue x = if ltb (length queue) capacity then some (queue ++ (x ∷ [])) else none

abbrev pub task_queue_size : ℕ
task_queue_size = 100

-- `TaskId::new`: the number, and the counter after it.
abbrev pub next_id : ℕ → ℕ × ℕ
next_id counter = (counter, (counter + 1) % u64_mod)

-- `S` is the state of a future; `tasks` is the map of the tasks by their number and `waker_cache`
-- the numbers that have a waker.
pub record Executor (S : Type 0) : Type 0 where
  pub tasks : List (ℕ × S)
  pub task_queue : List ℕ
  pub waker_cache : List ℕ

-- `TaskWaker::wake_task`
unfoldable pub wake_task : List ℕ → ℕ → Run (List ℕ)
wake_task queue id = elim (queue_push task_queue_size queue id) [ none ↦ panic | some q ↦ ok q ]

-- The wakes of several tasks in turn.
unfoldable pub wake_all : List ℕ → List ℕ → Run (List ℕ)
unfolding wake_task
wake_all queue [] = ok queue
wake_all queue (id ∷ ids) = do q ← wake_task queue id; wake_all q ids

module _ {S : Type 0} where
  abbrev pub find : List (ℕ × S) → ℕ → Option S
  find [] id = none
  find (t ∷ ts) id = if t.0 == id then some t.1 else find ts id

  abbrev pub erase : List (ℕ × S) → ℕ → List (ℕ × S)
  erase [] id = []
  erase (t ∷ ts) id = let rest = erase ts id in if t.0 == id then rest else t ∷ rest

  -- A new value for a number that is in the map, once.
  abbrev pub replace : List (ℕ × S) → ℕ → S → List (ℕ × S)
  replace [] id s = []
  replace (t ∷ ts) id s = let rest = replace ts id s in if t.0 == id then (id, s) ∷ ts else t ∷ rest

abbrev pub contains : List ℕ → ℕ → Bool
contains [] id = false
contains (i ∷ is) id = if i == id then true else contains is id

abbrev pub without : List ℕ → ℕ → List ℕ
without [] id = []
without (i ∷ is) id = let rest = without is id in if i == id then rest else i ∷ rest

module _ {S : Type 0} where
  abbrev pub new : Executor S
  new = record { tasks = []; task_queue = []; waker_cache = [] }

  abbrev queued : Executor S → Option (List ℕ) → Run (Executor S)
  queued ex none = panic
  queued ex (some queue) = ok (record ex { task_queue = queue })

  abbrev inserted : Executor S → ℕ → S → Option S → Run (Executor S)
  inserted ex id s (some old) = panic
  inserted ex id s none =
      queued (record ex { tasks = (id, s) ∷ ex.tasks })
        (queue_push task_queue_size ex.task_queue id)

  unfoldable pub spawn : Executor S → ℕ → S → Run (Executor S)
  spawn ex id s = inserted ex id s (find ex.tasks id)

-- A poll has the future's state before and after, whether it is ready, and the numbers of the tasks
-- that it or an interrupt woke meanwhile, in order.
module _ {S : Type 0} (poll : ℕ → S → S × Bool × List ℕ) where
  abbrev pub polled : Executor S → ℕ → List ℕ → S × Bool × List ℕ → Executor S
  polled ex id queue (s, true, woken) = record {
    tasks = erase ex.tasks id;
    task_queue = queue;
    waker_cache = without ex.waker_cache id;
  }
  polled ex id queue (s, false, woken) = record ex {
    tasks = replace ex.tasks id s;
    task_queue = queue;
    waker_cache = if contains ex.waker_cache id then ex.waker_cache else id ∷ ex.waker_cache;
  }

  -- One round, for a number taken from the queue.
  abbrev pub run_task : Executor S → ℕ → List ℕ → Option S → Run (Executor S)
  run_task ex id queue none = ok (record ex { task_queue = queue })
  run_task ex id queue (some s) = do
    queue' ← wake_all queue (poll id s).2
    ok (polled ex id queue' (poll id s))

  unfoldable pub run_ready_tasks : ℕ → Executor S → Run (Executor S)
  unfolding wake_all
  run_ready_tasks zero ex = out_of_fuel
  run_ready_tasks (suc n) ex = elim ex.task_queue [
    | [] ↦ ok ex
    | id ∷ queue ↦ run_task ex id queue (find ex.tasks id) >>= run_ready_tasks n
  ]

abbrev pub is_empty : List ℕ → Bool
is_empty [] = true
is_empty (id ∷ ids) = false

-- The processor as `sleep_if_idle` uses it: whether interrupts are enabled, whether it halts until the
-- next one, and the tasks that the interrupts which wait to be taken will wake, in order.
pub record Cpu : Type 0 where
  pub interrupts : Bool
  pub halted : Bool
  pub waiting : List ℕ

abbrev pub disable : Cpu → Cpu
disable c = record c { interrupts = false }

-- Interrupts that will wake some tasks: they are taken now if interrupts are enabled, and wait
-- otherwise.
unfoldable pub interrupt : List ℕ → List ℕ × Cpu → Run (List ℕ × Cpu)
unfolding wake_all
interrupt woken (queue, c) =
    let taken = wake_all queue woken in
    if c.interrupts
    then taken >>= (λ q. ok (q, c))
    else ok (queue, record c { waiting = c.waiting ++ woken })

-- The interrupts that wait are taken.
unfoldable pub enable : List ℕ × Cpu → Run (List ℕ × Cpu)
unfolding wake_all
enable (queue, c) = do
  q ← wake_all queue c.waiting
  ok (q, record c { interrupts = true; waiting = [] })

-- `sti; hlt`: no interrupt is taken between the two, and one that waits ends the halt at once.
unfoldable pub enable_and_hlt : List ℕ × Cpu → Run (List ℕ × Cpu)
unfolding wake_all
enable_and_hlt (queue, c) = do
  q ← wake_all queue c.waiting
  ok (q, record { interrupts = true; halted = is_empty c.waiting; waiting = [] })

-- On the queue; `early` and `late` are the tasks of the interrupts that come before and after the test
-- whether it is empty.
unfoldable pub sleep_if_idle : (early late : List ℕ) → List ℕ × Cpu → Run (List ℕ × Cpu)
unfolding interrupt enable enable_and_hlt
sleep_if_idle early late (queue, c) = do
  before ← interrupt early (queue, disable c)
  after ← interrupt late before
  if is_empty before.0 then enable_and_hlt after else enable after
