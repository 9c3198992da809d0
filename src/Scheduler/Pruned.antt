-- ===== src/Scheduler/Pruned.antt =====
-- Where the search of `get_next_task` begins, and what stays true of a list without the tasks that are
-- done.
use lobster_os_legacy.Prelude.{
  ℕ, suc, ◌+◌, ◌≤◌, ◌<◌, ◌≡◌, ◌≢◌, ◌⊎◌, inl, inr, refl, sym, ap, ◌∙◌, none, some, List, [], ◌∷◌,
  ◌++◌, arith, length, take, drop, take-append-drop, length-take, length-drop, ok, Profile, u64_mod,
  leb, if◌then◌else◌,
}
use lobster_os_legacy.Scheduler.{TaskState, Task, Scheduler}
use lobster_os_legacy.Scheduler.Spec.{first_ready, keep, prune, NoneRunning, Steps, AnyReady}
use lobster_os_legacy.Scheduler.Moves.{target, At, advance_from}

-- The search begins behind the current task.
pub At-start :
    (p : Profile) (s : Scheduler)
    → length s.tasks < u64_mod
    → s.current_task + 1 < u64_mod
    → At p s (take (s.current_task + 1) s.tasks) (drop (s.current_task + 1) s.tasks)
At-start p s l i = record {
  split = sym (take-append-drop k s.tasks);
  small = rw (take-append-drop k s.tasks) l;
  next = advance_from p s s.current_task refl i ∙ ap ok (split (drop k s.tasks) refl);
}
  where
    k : ℕ
    k = s.current_task + 1

    split :
        (post : List Task)
        → drop k s.tasks ≡ post
        → (if leb (length s.tasks) k then 0 else k) ≡ target (take k s.tasks) post
    split [] e = ground (arith, length-drop k s.tasks, ap length e)
    split (u ∷ post) e = ground (arith, length-drop k s.tasks, length-take k s.tasks, ap length e)

pub length-prune : (ts : List Task) → length (prune ts) ≤ length ts
length-prune [] = omega arith
length-prune (t ∷ ts) = ground (arith, length-prune ts)

pub NoneRunning-prune : (ts : List Task) → NoneRunning ts → NoneRunning (prune ts)
NoneRunning-prune [] n = tt
NoneRunning-prune (t ∷ ts) n =
    (elim t.state as (λ x. t.state ≡ x → NoneRunning (keep x t (prune ts))) [
      | TaskState.done ↦ λ e. NoneRunning-prune ts n.1
      | TaskState.ready ↦ λ e. (n.0, NoneRunning-prune ts n.1)
      | TaskState.waiting ↦ λ e. (n.0, NoneRunning-prune ts n.1)
      | TaskState.running ↦ λ e. (n.0, NoneRunning-prune ts n.1)
    ])
      refl

-- A list with a head keeps it when something behind it is replaced.
pub Steps-replace :
    (p : Profile) (n : ℕ) (ts xs : List Task)
    → Steps p ts
    → Steps p (take (n + 1) ts ++ xs) ⊎ (ts ≡ [])
Steps-replace p n ts xs (inl h) = inl (inl h)
Steps-replace p n [] xs (inr h) = inr refl
Steps-replace p n (t ∷ ts) xs (inr h) = let e : n + 1 ≡ suc n = omega arith in inl (rw e (inr h))

pub first_ready-append_none :
    (xs ys : List Task)
    → first_ready xs ≡ none
    → first_ready ys ≡ none
    → first_ready (xs ++ ys) ≡ none
first_ready-append_none [] ys h k = k
first_ready-append_none (x ∷ xs) ys h k = ground (arith, first_ready-append_none xs ys, h, k)

pub first_ready-append_left :
    (xs ys : List Task) → first_ready (xs ++ ys) ≡ none → first_ready xs ≡ none
first_ready-append_left [] ys h = refl
first_ready-append_left (x ∷ xs) ys h = ground (arith, first_ready-append_left xs ys, h)

pub first_ready-ne-none : (ts : List Task) → AnyReady ts → first_ready ts ≢ none
first_ready-ne-none [] a h = a
first_ready-ne-none (t ∷ ts) (inl e) h = ground arith
first_ready-ne-none (t ∷ ts) (inr a) h = ground (arith, first_ready-ne-none ts a)

pub some_inj : {a b : Scheduler × ℕ} → some a ≡ some b → a ≡ b
some_inj h = cc
