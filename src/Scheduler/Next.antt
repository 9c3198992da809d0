-- ===== src/Scheduler/Next.antt =====
-- `get_next_task` ends and finds what `Spec` says: the passes of `Pass`, behind the current task
-- and then from the front.
use mathlib.Core.Path.{subst}
use lobster_os_legacy.Prelude.{
  ℕ, ◌+◌, ◌-◌, ◌*◌, ◌≤◌, ◌<◌, ◌≡◌, ◌≢◌, inl, inr, refl, ap, ◌∙◌, Option, none, some, List, [], ◌∷◌,
  ◌++◌, arith, length, length-append, take, drop, take-append-drop, length-take, length-drop,
  All-append, All-append_left, All-append_right, ok, Profile, u64_mod, Option-cases,
}
use lobster_os_legacy.Scheduler.{Task, Scheduler, advance, next_loop, get_next_task}
use lobster_os_legacy.Scheduler.Spec.{
  Found, first_ready, prune, placed, next_ready, NoneRunning, Steps, AnyReady,
}
use lobster_os_legacy.Scheduler.Moves.{target}
use lobster_os_legacy.Scheduler.Pass.{pass_found, pass_none}
use lobster_os_legacy.Scheduler.Pruned.{
  At-start, length-prune, NoneRunning-prune, Steps-replace, first_ready-append_none,
  first_ready-append_left, first_ready-ne-none, some_inj,
}

-- The loop on a list that is not empty.
module _ (p : Profile) (s : Scheduler) where
  abbrev pub before : List Task
  before = take (s.current_task + 1) s.tasks

  abbrev pub after : List Task
  after = drop (s.current_task + 1) s.tasks

  second_pass :
      (f c : ℕ) (r : Found)
      → NoneRunning (before ++ prune after)
      → Steps p (before ++ prune after)
      → length (before ++ prune after) < u64_mod
      → advance p (record s { tasks = before ++ prune after; current_task = c }) ≡ ok 0
      → first_ready (before ++ prune after) ≡ some r
      → length (before ++ prune after) ≤ f
      → next_loop p f (record s { tasks = before ++ prune after; current_task = c })
        ≡ ok (placed s [] r)
  second_pass f c r n st l next h fuel =
      pass_found p (before ++ prune after) [] f
        (record s { tasks = before ++ prune after; current_task = c }) r
        (record {
          split = refl;
          small = l;
          next = next ∙ ap ok (zero_target (before ++ prune after));
        })
        n st h fuel
    where
      zero_target : (ts : List Task) → 0 ≡ target [] ts
      zero_target [] = refl
      zero_target (t ∷ ts) = refl

  pub length-pruned : length (before ++ prune after) ≤ length s.tasks
  length-pruned = omega (
    arith,
    length-append before (prune after),
    length-prune after,
    length-take (s.current_task + 1) s.tasks,
    length-drop (s.current_task + 1) s.tasks,
  )

  pub NoneRunning-pruned : NoneRunning s.tasks → NoneRunning (before ++ prune after)
  NoneRunning-pruned n =
      let whole : NoneRunning (before ++ after) =
        rw (take-append-drop (s.current_task + 1) s.tasks) n in
      All-append _ before (prune after) (All-append_left _ before after whole)
        (NoneRunning-prune after (All-append_right _ before after whole))

  next_loop_lem :
      (f : ℕ) (r : Scheduler × ℕ)
      → s.tasks ≢ []
      → NoneRunning s.tasks
      → Steps p s.tasks
      → length s.tasks < u64_mod
      → s.current_task + 1 < u64_mod
      → 2 * length s.tasks ≤ f
      → next_ready s ≡ some r
      → next_loop p f s ≡ ok r
  next_loop_lem f r ne n st l i fuel h = elim (Option-cases (first_ready after)) [
    | inr (r', e) ↦
        pass_found p after before f s r' (At-start p s l i) (All-append_right _ before after whole)
          (rw (take-append-drop k s.tasks) st) e (omega (arith, length-drop k s.tasks))
        ∙ ap ok (some_inj (subst (λ o. chosen o ≡ some r) e h))
    | inl e ↦
        let (c, run, next) =
          pass_none p after before (before ++ prune after) f (f - length after) s (At-start p s l i)
            (All-append_right _ before after whole) (rw (take-append-drop k s.tasks) st) e
            (omega (arith, length-drop k s.tasks)) refl in
        let h' = subst (λ o. chosen o ≡ some r) e h in
        run ∙ elim (Option-cases (first_ready (before ++ prune after))) [
          | inl none_left ↦ cc (subst (λ o. around o ≡ some r) none_left h')
          | inr (r', e') ↦
              second_pass (f - length after) c r' (NoneRunning-pruned n) steps
                (omega (arith, length-pruned)) next e'
                (omega (arith, length-pruned, length-drop k s.tasks))
              ∙ ap ok (some_inj (subst (λ o. around o ≡ some r) e' h'))
        ]
  ]
    where
      k : ℕ
      k = s.current_task + 1

      whole : NoneRunning (before ++ after)
      whole = rw (take-append-drop k s.tasks) n

      around : Option Found → Option (Scheduler × ℕ)
      around o = elim o [ some r ↦ some (placed s [] r) | none ↦ none ]

      chosen : Option Found → Option (Scheduler × ℕ)
      chosen o = elim o [
        | some r ↦ some (placed s before r)
        | none ↦ around (first_ready (before ++ prune after))
      ]

      steps : Steps p (before ++ prune after)
      steps = elim (Steps-replace p s.current_task s.tasks (prune after) st) [
        | inl ok' ↦ ok'
        | inr nil ↦ absurd (ne nil)
      ]

-- A ready task is found: `next_ready` has a value.
next_ready-AnyReady :
    (s : Scheduler) → AnyReady s.tasks → (r : Scheduler × ℕ) × (next_ready s ≡ some r)
next_ready-AnyReady s any = elim (Option-cases (first_ready aft)) [
  | inr (r, e) ↦ (placed s bef r, ground (arith, e))
  | inl e ↦ elim (Option-cases (first_ready (bef ++ prune aft))) [
    | inr (r, e') ↦ (placed s [] r, ground (arith, e, e'))
    | inl e' ↦ absurd (
        first_ready-ne-none s.tasks any (
          subst (λ ts. first_ready ts ≡ none) (take-append-drop (s.current_task + 1) s.tasks)
            (first_ready-append_none bef aft (first_ready-append_left bef (prune aft) e') e)))
  ]
]
  where
    bef : List Task
    bef = take (s.current_task + 1) s.tasks

    aft : List Task
    aft = drop (s.current_task + 1) s.tasks

AnyReady-ne-nil : (ts : List Task) → AnyReady ts → ts ≢ []
AnyReady-ne-nil [] a e = a
AnyReady-ne-nil (t ∷ ts) a e = cc

pub get_next_task-ne-nil :
    (p : Profile) (f : ℕ) (s : Scheduler) (ts : List Task)
    → s.tasks ≡ ts
    → ts ≢ []
    → get_next_task p f s ≡ next_loop p f s
unfolding get_next_task
get_next_task-ne-nil p f s [] e ne = absurd (ne refl)
get_next_task-ne-nil p f s (t ∷ ts) e ne = ground (arith, e)

-- With some task ready and none running, fewer than 2^64 tasks, a current index that can be counted
-- up in 64 bits, and no finished task at index 0
-- or no overflow checks, `get_next_task` ends within two rounds over the list, without a panic,
-- and what it returns is what the specification finds: the first ready task behind the current
-- one in circular order, with the finished tasks on the way removed and the others kept in order.
pub get_next_task-eq-next_ready :
    (p : Profile) (f : ℕ) (s : Scheduler)
    → AnyReady s.tasks
    → NoneRunning s.tasks
    → Steps p s.tasks
    → length s.tasks < u64_mod
    → s.current_task + 1 < u64_mod
    → 2 * length s.tasks ≤ f
    → (r : Scheduler × ℕ) × (next_ready s ≡ some r) × (get_next_task p f s ≡ ok r)
get_next_task-eq-next_ready p f s any n st l i fuel =
    let (r, found) = next_ready-AnyReady s any in
    let ne = AnyReady-ne-nil s.tasks any in
    (
      r,
      found,
      get_next_task-ne-nil p f s s.tasks refl ne ∙ next_loop_lem p s f r ne n st l i fuel found,
    )
