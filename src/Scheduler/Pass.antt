-- ===== src/Scheduler/Pass.antt =====
-- The loop of `get_next_task` over a part of the task list: one lemma for each kind of task that it
-- meets, then a pass that ends at a ready task and one that finds none.
use mathlib.Core.List.{append_assoc}
use mathlib.Core.Path.{subst}
use lobster_os_legacy.Prelude.{
  ℕ, zero, suc, ◌+◌, ◌≤◌, ◌≡◌, refl, sym, ap, ◌∙◌, Option, none, some, List, [], ◌∷◌, ◌++◌, arith,
  length, length-append, ok, Profile,
}
use lobster_os_legacy.Scheduler.{TaskState, Task, Scheduler, advance, next_loop}
use lobster_os_legacy.Scheduler.Spec.{
  Found, first_ready, first_ready_at, skip, keep, prune, placed, NoneRunning, Steps,
}
use lobster_os_legacy.Scheduler.Moves.{
  At, wait-At, drop-At, ready-At, At-wait, At-drop, drop_allowed, Steps-drop,
}

some_inj : {a b : Found} → some a ≡ some b → a ≡ b
some_inj h = cc

skip-eq-none : (t : Task) (o : Option Found) → skip t o ≡ none → o ≡ none
skip-eq-none t none h = refl
skip-eq-none t (some r) h = cc

skip-eq-some :
    (t : Task) (o : Option Found) (r : Found)
    → skip t o ≡ some r
    → (r' : Found) × (o ≡ some r') × (record r' { skipped = t ∷ r'.skipped } ≡ r)
skip-eq-some t none r h = cc
skip-eq-some t (some r') r h = (r', refl, some_inj h)

placed_here :
    (p : Profile) (s : Scheduler) (pre : List Task) (t : Task) (post : List Task)
    → At p s pre (t ∷ post)
    → (record s { current_task = length pre }, length pre)
      ≡ placed s pre (record { skipped = []; task = t; rest = post })
placed_here p s pre t post a = ground (arith, a.split)

placed_later :
    (s : Scheduler) (i : ℕ) (pre : List Task) (t : Task) (r : Found)
    → placed (record s { current_task = i }) (pre ++ (t ∷ [])) r
      ≡ placed s pre (record r { skipped = t ∷ r.skipped })
placed_later s i pre t r =
    ground (
      arith,
      append_assoc pre (t ∷ []) (r.skipped ++ (r.task ∷ r.rest)),
      length-append pre (t ∷ []),
    )

-- The pass over `post` when it holds a ready task.
pub pass_found :
    (p : Profile) (post pre : List Task) (f : ℕ) (s : Scheduler) (r : Found)
    → At p s pre post
    → NoneRunning post
    → Steps p (pre ++ post)
    → first_ready post ≡ some r
    → length post ≤ f
    → next_loop p f s ≡ ok (placed s pre r)
pass_found p [] pre f s r a n st h l = cc
pass_found p (t ∷ post) pre zero s r a n st h l = absurd (omega arith)
pass_found p (t ∷ post) pre (suc f) s r a n st h l =
    (elim t.state as (λ x. t.state ≡ x → next_loop p (suc f) s ≡ ok (placed s pre r)) [
      | TaskState.ready ↦ λ e.
          let found =
            some_inj (subst (λ x. first_ready_at x t post (first_ready post) ≡ some r) e h) in
          ready-At p f s pre t post a e
          ∙ ap ok (placed_here p s pre t post a ∙ ap (placed s pre) found)
      | TaskState.running ↦ λ e. absurd (n.0 e)
      | TaskState.waiting ↦ λ e.
          let (r', found, same) =
            skip-eq-some t (first_ready post) r
              (subst (λ x. first_ready_at x t post (first_ready post) ≡ some r) e h) in
          wait-At p f s pre t post a e
          ∙ pass_found p post (pre ++ (t ∷ [])) f (record s { current_task = length pre }) r'
              (At-wait p s pre t post a) n.1 (rw (append_assoc pre (t ∷ []) post) st) found
              (omega arith)
          ∙ ap ok (placed_later s (length pre) pre t r' ∙ ap (placed s pre) same)
      | TaskState.done ↦ λ e.
          let (c, minus, a') = At-drop p s pre t post a (drop_allowed p pre t post st e) in
          drop-At p f s pre t post a e c minus
          ∙ pass_found p post pre f (record s { tasks = pre ++ post; current_task = c }) r a' n.1
              (Steps-drop p pre t post st e)
              (subst (λ x. first_ready_at x t post (first_ready post) ≡ some r) e h) (omega arith)
    ])
      refl

-- The pass over `post` when it holds none: only the finished tasks are gone.
pub pass_none :
    (p : Profile) (post pre ts : List Task) (k f : ℕ) (s : Scheduler)
    → At p s pre post
    → NoneRunning post
    → Steps p (pre ++ post)
    → first_ready post ≡ none
    → k ≡ length post + f
    → ts ≡ pre ++ prune post
    → (c : ℕ) × (next_loop p k s ≡ next_loop p f (record s { tasks = ts; current_task = c }))
      × (advance p (record s { tasks = ts; current_task = c }) ≡ ok 0)
pass_none p [] pre ts k f s a n st h e w =
    let same : s.tasks ≡ ts = a.split ∙ sym w in
    let fuel : k ≡ f = omega arith in (s.current_task, rw (fuel, ← same), rw (← same) a.next)
pass_none p (t ∷ post) pre ts zero f s a n st h e w = absurd (omega arith)
pass_none p (t ∷ post) pre ts (suc k) f s a n st h e w =
    (elim t.state as (λ x. t.state ≡ x → Goal) [
      | TaskState.ready ↦
          λ d. cc (subst (λ x. first_ready_at x t post (first_ready post) ≡ none) d h)
      | TaskState.running ↦ λ d. absurd (n.0 d)
      | TaskState.waiting ↦ λ d.
          let (c, run, next) =
            pass_none p post (pre ++ (t ∷ [])) ts k f (record s { current_task = length pre })
              (At-wait p s pre t post a) n.1 (rw (append_assoc pre (t ∷ []) post) st)
              (skip-eq-none t (first_ready post)
                (subst (λ x. first_ready_at x t post (first_ready post) ≡ none) d h))
              (omega arith)
              (subst (λ x. ts ≡ pre ++ keep x t (prune post)) d w
                ∙ sym (append_assoc pre (t ∷ []) (prune post))) in
          (c, wait-At p k s pre t post a d ∙ run, next)
      | TaskState.done ↦ λ d.
          let (i, minus, a') = At-drop p s pre t post a (drop_allowed p pre t post st d) in
          let (c, run, next) =
            pass_none p post pre ts k f (record s { tasks = pre ++ post; current_task = i }) a' n.1
              (Steps-drop p pre t post st d)
              (subst (λ x. first_ready_at x t post (first_ready post) ≡ none) d h) (omega arith)
              (subst (λ x. ts ≡ pre ++ keep x t (prune post)) d w) in
          (c, drop-At p k s pre t post a d i minus ∙ run, next)
    ])
      refl
  where
    Goal : Type 0
    Goal =
        (c : ℕ) × (next_loop p (suc k) s
          ≡ next_loop p f (record s { tasks = ts; current_task = c }))
        × (advance p (record s { tasks = ts; current_task = c }) ≡ ok 0)
