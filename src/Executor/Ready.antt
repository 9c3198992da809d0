-- ===== src/Executor/Ready.antt =====
-- `run_ready_tasks` comes to an end.
use lobster_os_legacy.Prelude.{
  length-snoc, ℕ, zero, suc, ◌+◌, ◌≤◌, ◌<◌, ◌≡◌, refl, ap, ◌∙◌, Option, none, some, Bool, true,
  false, List, [], ◌∷◌, ◌++◌, ◌==◌, ==_iff, lt→ltb, if◌then◌else◌, length, ok, panic, ◌>>=◌, arith,
}
use lobster_os_legacy.Executor.{
  Executor, find, erase, replace, task_queue_size, wake_task, wake_all, polled, run_task,
  run_ready_tasks,
}

pub wake_task-ok :
    (queue : List ℕ) (id : ℕ)
    → length queue < task_queue_size
    → wake_task queue id ≡ ok (queue ++ (id ∷ []))
unfolding wake_task
wake_task-ok queue id room =
    ap (λ b. elim (if b then some (queue ++ (id ∷ [])) else none) [ none ↦ panic | some q ↦ ok q ])
      (lt→ltb (length queue) task_queue_size room)

wake_all-ok :
    (queue ids : List ℕ)
    → length queue + length ids ≤ task_queue_size
    → (queue' : List ℕ) × (wake_all queue ids ≡ ok queue')
      × (length queue' ≡ length queue + length ids)
unfolding wake_all
wake_all-ok queue [] room = (queue, refl, omega arith)
wake_all-ok queue (id ∷ ids) room =
    let size = length-snoc queue id in
    let (queue', e, n) = wake_all-ok (queue ++ (id ∷ [])) ids (omega arith) in
    (
      queue',
      ap (λ r. r >>= λ q. wake_all q ids) (wake_task-ok queue id (omega arith)) ∙ e,
      omega arith,
    )

module _ {S : Type 0} (poll : ℕ → S → S × Bool × List ℕ) where
  module _ (wakes : ℕ → S → ℕ) where
    -- The wakes that the tasks can still make.
    abbrev pub all_wakes : List (ℕ × S) → ℕ
    all_wakes [] = 0
    all_wakes (t ∷ ts) = wakes t.0 t.1 + all_wakes ts

    -- `wakes` bounds the wakes of a poll, with those that are left when the task stays.
    abbrev pub IsBudget : Type 0
    IsBudget =
        (id : ℕ) (s : S)
        → let (s', ready, woken) = poll id s in
          length woken + (if ready then 0 else wakes id s') ≤ wakes id s

    same_wakes : (i j : ℕ) (s s' : S) → i ≡ j → s ≡ s' → wakes i s ≡ wakes j s'
    same_wakes i j s s' e e' = cc

    some-injective : (s s' : S) → ◌≡◌ {A = Option S} (some s) (some s') → s ≡ s'
    some-injective s s' h = cc

    erase_le : (ts : List (ℕ × S)) (id : ℕ) → all_wakes (erase ts id) ≤ all_wakes ts
    erase_le [] id = omega arith
    erase_le (t ∷ ts) id = on (t.0 == id) (erase_le ts id)
      where
        on :
            (b : Bool)
            → all_wakes (erase ts id) ≤ all_wakes ts
            → all_wakes (if b then erase ts id else t ∷ erase ts id) ≤ wakes t.0 t.1 + all_wakes ts
        on true le = omega arith
        on false le = omega arith

    erase_found :
        (ts : List (ℕ × S)) (id : ℕ) (s : S)
        → find ts id ≡ some s
        → all_wakes (erase ts id) + wakes id s ≤ all_wakes ts
    erase_found [] id s h = cc
    erase_found (t ∷ ts) id s h = on (t.0 == id) (λ z. erase_found ts id s z) refl h
      where
        on :
            (b : Bool)
            → (find ts id ≡ some s → all_wakes (erase ts id) + wakes id s ≤ all_wakes ts)
            → (t.0 == id) ≡ b
            → (if b then some t.1 else find ts id) ≡ some s
            → all_wakes (if b then erase ts id else t ∷ erase ts id) + wakes id s
              ≤ wakes t.0 t.1 + all_wakes ts
        on true ih e h' =
            let same : wakes t.0 t.1 ≡ wakes id s =
              same_wakes t.0 id t.1 s ((==_iff t.0 id).0 e) (some-injective t.1 s h') in
            omega (arith, erase_le ts id)
        on false ih e h' = omega (arith, ih h')

    replace_found :
        (ts : List (ℕ × S)) (id : ℕ) (s s' : S)
        → find ts id ≡ some s
        → all_wakes (replace ts id s') + wakes id s ≡ all_wakes ts + wakes id s'
    replace_found [] id s s' h = cc
    replace_found (t ∷ ts) id s s' h = on (t.0 == id) (λ z. replace_found ts id s s' z) refl h
      where
        on :
            (b : Bool)
            → (find ts id ≡ some s
                → all_wakes (replace ts id s') + wakes id s ≡ all_wakes ts + wakes id s')
            → (t.0 == id) ≡ b
            → (if b then some t.1 else find ts id) ≡ some s
            → all_wakes (if b then (id, s') ∷ ts else t ∷ replace ts id s') + wakes id s
              ≡ wakes t.0 t.1 + all_wakes ts + wakes id s'
        on true ih e h' =
            let same : wakes t.0 t.1 ≡ wakes id s =
              same_wakes t.0 id t.1 s ((==_iff t.0 id).0 e) (some-injective t.1 s h') in
            omega arith
        on false ih e h' = omega (arith, ih h')

    -- The queued tasks with all the wakes to come.
    abbrev pub pending : Executor S → ℕ
    pending ex = length ex.task_queue + all_wakes ex.tasks

    -- A round takes one number from what is pending.
    run_task-less :
        IsBudget
        → (ex : Executor S) (id : ℕ) (queue : List ℕ) (o : Option S) → ex.task_queue ≡ id ∷ queue
        → find ex.tasks id ≡ o
        → pending ex ≤ task_queue_size
        → (ex' : Executor S) × (run_task poll ex id queue o ≡ ok ex') × (pending ex' < pending ex)
    run_task-less budget ex id queue none at missing room =
        let size : length ex.task_queue ≡ suc (length queue) = ap length at in
        (record ex { task_queue = queue }, refl, omega arith)
    run_task-less budget ex id queue (some s) at found room =
        let size : length ex.task_queue ≡ suc (length queue) = ap length at in
        let (queue', woken, n) =
          wake_all-ok queue (poll id s).2
            (omega (arith, budget id s, erase_found ex.tasks id s found)) in
        (
          polled poll ex id queue' (poll id s),
          ap (λ r. r >>= λ q. ok (polled poll ex id q (poll id s))) woken,
          on (poll id s) queue' n (budget id s),
        )
      where
        on :
            (r : S × Bool × List ℕ) (queue' : List ℕ)
            → length queue' ≡ length queue + length r.2
            → length r.2 + (if r.1 then 0 else wakes id r.0) ≤ wakes id s
            → pending (polled poll ex id queue' r) < pending ex
        on (s', true, woken) queue' n le =
            let size : length ex.task_queue ≡ suc (length queue) = ap length at in
            omega (arith, erase_found ex.tasks id s found)
        on (s', false, woken) queue' n le =
            let size : length ex.task_queue ≡ suc (length queue) = ap length at in
            omega (arith, replace_found ex.tasks id s s' found)

    -- If the tasks keep to a budget of wakes that, with the queue, does not exceed the capacity of 100,
    -- `run_ready_tasks` ends, with fuel above that sum: no push to the queue panics, and the queue is
    -- empty afterwards.
    pub run_ready_tasks-empty :
        IsBudget
        → (fuel : ℕ) (ex : Executor S) → pending ex ≤ task_queue_size
        → pending ex < fuel
        → (ex' : Executor S) × (run_ready_tasks poll fuel ex ≡ ok ex') × (ex'.task_queue ≡ [])
    unfolding run_ready_tasks
    run_ready_tasks-empty budget zero ex room lt = absurd (omega arith)
    run_ready_tasks-empty budget (suc n) ex room lt =
        on ex.task_queue (λ next r l. run_ready_tasks-empty budget n next r l) refl
      where
        on :
            (q : List ℕ)
            → ((next : Executor S)
                → pending next ≤ task_queue_size
                → pending next < n
                → (ex' : Executor S) × (run_ready_tasks poll n next ≡ ok ex')
                  × (ex'.task_queue ≡ []))
            → ex.task_queue ≡ q
            → (ex' : Executor S) × (elim q [
              | [] ↦ ok ex
              | id ∷ queue ↦ run_task poll ex id queue (find ex.tasks id) >>= run_ready_tasks poll n
            ]
                ≡ ok ex')
              × (ex'.task_queue ≡ [])
        on [] ih at = (ex, refl, at)
        on (id ∷ queue) ih at =
            let (next, ran, less) =
              run_task-less budget ex id queue (find ex.tasks id) at refl room in
            let (ex', done, empty) = ih next (omega arith) (omega arith) in
            (ex', ap (λ r. r >>= run_ready_tasks poll n) ran ∙ done, empty)
