-- ===== src/Scheduler/Chosen.antt =====
-- What the choice of `Spec` leaves: a ready task at the chosen index, and a list that is as well
-- formed as before.
use mathlib.Core.List.{append_assoc}
use mathlib.Core.Path.{subst}
use lobster_os_legacy.Prelude.{
  ℕ, suc, ◌+◌, ◌≤◌, ◌<◌, ◌≡◌, ◌≢◌, inl, inr, refl, sym, Option, none, some, List, [], ◌∷◌, ◌++◌,
  arith, length, length-append, get_elem?, get_elem?-append, take, drop, take-append-drop,
  length-take, length-drop, All-append, All-append_left, All-append_right, Profile, Option-cases,
}
use lobster_os_legacy.Scheduler.{TaskState, Task, Scheduler}
use lobster_os_legacy.Scheduler.Spec.{
  Found, first_ready, first_ready_at, skip, prune, placed, next_ready, NoneRunning, HeadLives,
}
use lobster_os_legacy.Scheduler.Next.{NoneRunning-pruned, length-pruned}

abbrev all_of : Found → List Task
all_of r = r.skipped ++ (r.task ∷ r.rest)

record Kept (p : Profile) (ts : List Task) (r : Found) : Type 0 where
  is_ready : r.task.state ≡ TaskState.ready
  none_running : NoneRunning ts → NoneRunning (all_of r)
  shorter : length (all_of r) ≤ length ts
  head : HeadLives ts → HeadLives (all_of r)

some_inj : {a b : Found} → some a ≡ some b → a ≡ b
some_inj e = cc

Kept-skip :
    (p : Profile) (t : Task) (ts : List Task) (o : Option Found) (r : Found)
    → ((r' : Found) → o ≡ some r' → Kept p ts r')
    → t.state ≢ TaskState.done
    → skip t o ≡ some r
    → Kept p (t ∷ ts) r
Kept-skip p t ts none r ih d h = cc
Kept-skip p t ts (some r') r ih d h =
    let k = ih r' refl in
    subst (Kept p (t ∷ ts)) (some_inj h) (record {
      is_ready = k.is_ready;
      none_running = λ n. (n.0, k.none_running n.1);
      shorter = omega (arith, k.shorter);
      head = λ _. d;
    })

first_ready-Kept :
    (p : Profile) (ts : List Task) (r : Found) → first_ready ts ≡ some r → Kept p ts r
first_ready-Kept p [] r h = cc
first_ready-Kept p (t ∷ ts) r h =
    (elim t.state as (λ x. t.state ≡ x → Kept p (t ∷ ts) r) [
      | TaskState.ready ↦ λ e.
          subst (Kept p (t ∷ ts)) (some_inj (at e))
            (record { is_ready = e; none_running = λ n. n; shorter = omega arith; head = λ d. d })
      | TaskState.waiting ↦
          λ e. Kept-skip p t ts (first_ready ts) r (first_ready-Kept p ts) (λ d. cc) (at e)
      | TaskState.running ↦
          λ e. Kept-skip p t ts (first_ready ts) r (first_ready-Kept p ts) (λ d. cc) (at e)
      | TaskState.done ↦ λ e.
          let k = first_ready-Kept p ts r (at e) in
          record {
            is_ready = k.is_ready;
            none_running = λ n. k.none_running n.1;
            shorter = omega (arith, k.shorter);
            head = λ d. absurd (d e);
          }
    ])
      refl
  where
    at : {x : TaskState} → t.state ≡ x → first_ready_at x t ts (first_ready ts) ≡ some r
    at e = subst (λ x. first_ready_at x t ts (first_ready ts) ≡ some r) e h

-- The scheduler `r.0`, made from `s`, stands at a ready task.
pub record Chosen (p : Profile) (s : Scheduler) (r : Scheduler × ℕ) : Type 0 where
  pub index : r.0.current_task ≡ r.1
  pub task : Task
  pub look : get_elem? r.0.tasks r.1 ≡ some task
  pub is_ready : task.state ≡ TaskState.ready
  pub none_running : NoneRunning s.tasks → NoneRunning r.0.tasks
  pub shorter : length r.0.tasks ≤ length s.tasks
  pub head : HeadLives s.tasks → HeadLives r.0.tasks
  pub in_range : r.1 < length r.0.tasks
  pub ticks : r.0.current_task_ticks ≡ s.current_task_ticks
  pub enabled : r.0.is_enabled ≡ s.is_enabled
  pub ids : r.0.next_task_id ≡ s.next_task_id

placed-Chosen :
    (p : Profile) (s : Scheduler) (front : List Task) (r : Found)
    → r.task.state ≡ TaskState.ready
    → (NoneRunning s.tasks → NoneRunning (front ++ all_of r))
    → length (front ++ all_of r) ≤ length s.tasks
    → (HeadLives s.tasks → HeadLives (front ++ all_of r))
    → Chosen p s (placed s front r)
placed-Chosen p s front r e n l h = record {
  index = refl;
  task = r.task;
  look = rw (← append_assoc front r.skipped (r.task ∷ r.rest)) (
      get_elem?-append (front ++ r.skipped) r.task r.rest (length front + length r.skipped)
        (sym (length-append front r.skipped)));
  is_ready = e;
  none_running = n;
  shorter = l;
  head = h;
  in_range =
      omega (arith, length-append front (all_of r), length-append r.skipped (r.task ∷ r.rest));
  ticks = refl;
  enabled = refl;
  ids = refl;
}

HeadLives-replace :
    (n : ℕ) (ts xs : List Task) → ts ≢ [] → HeadLives ts → HeadLives (take (n + 1) ts ++ xs)
HeadLives-replace n [] xs ne h = absurd (ne refl)
HeadLives-replace n (t ∷ ts) xs ne h = let e : n + 1 ≡ suc n = omega arith in rw e h

pub next_ready-Chosen :
    (p : Profile) (s : Scheduler) (r : Scheduler × ℕ)
    → s.tasks ≢ []
    → next_ready s ≡ some r
    → Chosen p s r
next_ready-Chosen p s r ne h = elim (Option-cases (first_ready aft)) [
  | inr (r', e) ↦
      let k = first_ready-Kept p aft r' e in
      subst (Chosen p s) (inj (subst (λ o. chosen o ≡ some r) e h)) (
        placed-Chosen p s bef r' k.is_ready
          (λ n.
            All-append _ bef (all_of r') (All-append_left _ bef aft (whole n))
              (k.none_running (All-append_right _ bef aft (whole n))))
          (omega (
            arith,
            k.shorter,
            length-append bef (all_of r'),
            length-take i s.tasks,
            length-drop i s.tasks,
          ))
          (HeadLives-replace s.current_task s.tasks (all_of r') ne))
  | inl e ↦ elim (Option-cases (first_ready (bef ++ prune aft))) [
    | inl e' ↦ cc (subst (λ o. around o ≡ some r) e' (subst (λ o. chosen o ≡ some r) e h))
    | inr (r', e') ↦
        let k = first_ready-Kept p (bef ++ prune aft) r' e' in
        subst (Chosen p s)
          (inj (subst (λ o. around o ≡ some r) e' (subst (λ o. chosen o ≡ some r) e h)))
          (placed-Chosen p s [] r' k.is_ready (λ n. k.none_running (NoneRunning-pruned p s n))
            (omega (arith, k.shorter, length-pruned p s))
            (λ d. k.head (HeadLives-replace s.current_task s.tasks (prune aft) ne d)))
  ]
]
  where
    i : ℕ
    i = s.current_task + 1

    bef : List Task
    bef = take i s.tasks

    aft : List Task
    aft = drop i s.tasks

    whole : NoneRunning s.tasks → NoneRunning (bef ++ aft)
    whole n = rw (take-append-drop i s.tasks) n

    around : Option Found → Option (Scheduler × ℕ)
    around o = elim o [ some r ↦ some (placed s [] r) | none ↦ none ]

    chosen : Option Found → Option (Scheduler × ℕ)
    chosen o = elim o [
      | some r ↦ some (placed s bef r)
      | none ↦ around (first_ready (bef ++ prune aft))
    ]

    inj : {a b : Scheduler × ℕ} → some a ≡ some b → a ≡ b
    inj e = cc
