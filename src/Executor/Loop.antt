-- ===== src/Executor/Loop.antt =====
-- The loop of `run` in src/task/executor.rs: the ready tasks, then `sleep_if_idle`. Interrupts that wake
-- tasks may come before `sleep_if_idle` and at each of its steps.
use lobster_os_legacy.Prelude.{
  append-empty, snoc-append, length-snoc, sym, ℕ, ◌+◌, ◌≤◌, ◌<◌, ◌≡◌, ◌⊎◌, inl, inr, refl, ap, ◌∙◌,
  List, [], ◌∷◌, ◌++◌, Bool, true, false, length, Run, ok, ◌>>=◌, arith,
}
use lobster_os_legacy.Executor.{
  Executor, Cpu, task_queue_size, wake_all, run_ready_tasks, is_empty, interrupt, enable,
  enable_and_hlt, sleep_if_idle,
}
use lobster_os_legacy.Executor.Ready.{IsBudget, pending, run_ready_tasks-empty, wake_task-ok}

-- The processor at the start of a round.
abbrev pub awake : Cpu
awake = record { interrupts = true; halted = false; waiting = [] }

module _ {S : Type 0} (poll : ℕ → S → S × Bool × List ℕ) where
  -- One round of the loop; `woken`, `early` and `late` are the tasks that interrupts wake before
  -- `sleep_if_idle`, and in it before and after its test.
  unfoldable pub run_round :
      ℕ → (woken early late : List ℕ) → Executor S × Cpu → Run (Executor S × Cpu)
  run_round fuel woken early late (ex, cpu) = do
    ex1 ← run_ready_tasks poll fuel ex
    before ← interrupt woken (ex1.task_queue, cpu)
    (queue, cpu') ← sleep_if_idle early late before
    ok (record ex1 { task_queue = queue }, cpu')

  wake_all-append :
      (queue ids : List ℕ)
      → length queue + length ids ≤ task_queue_size
      → wake_all queue ids ≡ ok (queue ++ ids)
  unfolding wake_all
  wake_all-append queue [] room = ap ok (sym (append-empty queue))
  wake_all-append queue (id ∷ ids) room =
      let size = length-snoc queue id in
      ap (λ r. r >>= λ q. wake_all q ids) (wake_task-ok queue id (omega arith))
      ∙ wake_all-append (queue ++ (id ∷ [])) ids (omega arith)
      ∙ ap ok (snoc-append queue ids id)

  -- Asleep with nothing to do, or awake with the tasks that were woken, in order.
  abbrev pub Rested : List ℕ → Executor S → Cpu → Type 0
  Rested woken ex cpu =
      (cpu.interrupts ≡ true)
      × (cpu.waiting ≡ [])
      × (ex.task_queue ≡ woken)
      × (((woken ≡ []) × (cpu.halted ≡ true))
          ⊎ ((id : ℕ) × (rest : List ℕ) × (woken ≡ id ∷ rest) × (cpu.halted ≡ false)))

  -- The processor after a round in which some tasks were woken.
  abbrev after : List ℕ → Cpu
  after woken = record { interrupts = true; halted = is_empty woken; waiting = [] }

  sleep_if_idle-after :
      (queue early late : List ℕ)
      → length queue + length (early ++ late) ≤ task_queue_size
      → sleep_if_idle early late (queue, awake)
        ≡ ok (queue ++ (early ++ late), after (queue ++ (early ++ late)))
  unfolding sleep_if_idle interrupt enable enable_and_hlt
  sleep_if_idle-after [] early late room =
      ap (λ r. r >>= λ q. ok (q, after (early ++ late))) (wake_all-append [] (early ++ late) room)
  sleep_if_idle-after (id ∷ queue) early late room =
      ap (λ r. r >>= λ q. ok (q, awake)) (wake_all-append (id ∷ queue) (early ++ late) room)

  rested :
      (woken : List ℕ) (ex : Executor S)
      → Rested woken (record ex { task_queue = woken }) (after woken)
  rested [] ex = (refl, refl, refl, inl (refl, refl))
  rested (id ∷ rest) ex = (refl, refl, refl, inr (id, rest, refl, refl))

  -- If the tasks keep to a budget of wakes that, with the queue, does not exceed the capacity of 100,
  -- the fuel is above that sum, and interrupts wake at most 100 tasks in all after the ready tasks have
  -- run, before `sleep_if_idle`, in it before its test whether the queue is empty, and in it after this
  -- test, then a round of the loop from an awake processor ends without a panic, with interrupts
  -- enabled and none that waits. The tasks that were woken at any of the three points are in the queue
  -- for the next round, in order, and the processor halts exactly if there are none.
  pub run_round-Rested :
      (wakes : ℕ → S → ℕ) (fuel : ℕ) (woken early late : List ℕ) (ex : Executor S)
      → IsBudget poll wakes
      → pending poll wakes ex ≤ task_queue_size
      → pending poll wakes ex < fuel
      → length woken + length (early ++ late) ≤ task_queue_size
      → (ex' : Executor S) × (cpu' : Cpu) × (run_round fuel woken early late (ex, awake)
          ≡ ok (ex', cpu'))
        × Rested (woken ++ (early ++ late)) ex' cpu'
  unfolding run_round interrupt
  run_round-Rested wakes fuel woken early late ex budget room lt few =
      let (ex1, ran, empty) = run_ready_tasks-empty poll wakes budget fuel ex room lt in
      let total = woken ++ (early ++ late) in
      (
        record ex1 { task_queue = total },
        after total,
        ap (λ r. r >>= rest) ran
            ∙ ap (λ q. interrupt woken (q, awake) >>= asleep ex1) empty
            ∙ ap (λ r. (r >>= λ q. ok (q, awake)) >>= asleep ex1)
                (wake_all-append [] woken (omega arith))
            ∙ ap (λ r. r >>= ended ex1) (sleep_if_idle-after woken early late few),
        rested total ex1,
      )
    where
      ended : Executor S → List ℕ × Cpu → Run (Executor S × Cpu)
      ended ex1 o = ok (record ex1 { task_queue = o.0 }, o.1)

      asleep : Executor S → List ℕ × Cpu → Run (Executor S × Cpu)
      asleep ex1 before = sleep_if_idle early late before >>= ended ex1

      rest : Executor S → Run (Executor S × Cpu)
      rest ex1 = interrupt woken (ex1.task_queue, awake) >>= asleep ex1
