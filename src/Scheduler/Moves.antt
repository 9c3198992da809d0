-- ===== src/Scheduler/Moves.antt =====
-- One round of the search of `get_next_task`, by the part of the queue behind and ahead.
use mathlib.Core.List.{append_assoc}
use lobster_os_legacy.Prelude.{
  ℕ, suc, ◌+◌, ◌-◌, ◌<◌, ◌≡◌, ◌⊎◌, inl, inr, refl, sym, ap, ◌∙◌, some, List, [], ◌∷◌, ◌++◌, arith,
  length, length-append, get_elem?, get_elem?-append, remove-append, ok, ◌>>=◌, Profile, release,
  u64_mod, leb, if◌then◌else◌, add_mod-ok, sub_mod, sub_mod-ok,
}
use lobster_os_legacy.Scheduler.{TaskState, Task, Scheduler, advance, visit, next_loop}
use lobster_os_legacy.Scheduler.Spec.{Steps}

-- The index that the loop comes to before `post`.
abbrev pub target : List Task → List Task → ℕ
target pre [] = 0
target pre (t ∷ post) = length pre

-- The loop stands before `post`.
pub record At (p : Profile) (s : Scheduler) (pre post : List Task) : Type 0 where
  pub split : s.tasks ≡ pre ++ post
  pub small : length (pre ++ post) < u64_mod
  pub next : advance p s ≡ ok (target pre post)

-- Where the loop goes after index `i`, for a list of any length below 2^64.
pub advance_from :
    (p : Profile) (s : Scheduler) (i : ℕ)
    → s.current_task ≡ i
    → i + 1 < u64_mod
    → advance p s ≡ ok (if leb (length s.tasks) (i + 1) then 0 else i + 1)
unfolding advance
advance_from p s i e h = rw (e, add_mod-ok p u64_mod i 1 h)

-- In a build without overflow checks the index -1 is followed by 0.
advance_wrapped :
    (p : Profile) (s : Scheduler) → p ≡ release → s.current_task ≡ u64_mod - 1 → advance p s ≡ ok 0
unfolding advance
advance_wrapped p s e h = rw (e, h) (ground arith)

module _ (p : Profile) (f : ℕ) (s : Scheduler) (pre : List Task) (t : Task) (post : List Task) where
  visit-At :
      At p s pre (t ∷ post)
      → next_loop p (suc f) s
        ≡ visit p (next_loop p f) t.state (record s { current_task = length pre })
  unfolding next_loop
  visit-At a =
      let look : get_elem? s.tasks (length pre) ≡ some t =
        rw a.split (get_elem?-append pre t post (length pre) refl) in
      rw (a.next, ◌>>=◌, look)

  -- A waiting task is left behind.
  pub wait-At :
      At p s pre (t ∷ post)
      → t.state ≡ TaskState.waiting
      → next_loop p (suc f) s ≡ next_loop p f (record s { current_task = length pre })
  unfolding visit
  wait-At a e = visit-At a ∙ (rw e)

  -- A finished task is taken out.
  pub drop-At :
      At p s pre (t ∷ post)
      → t.state ≡ TaskState.done
      → (c : ℕ) → sub_mod p u64_mod (length pre) 1 ≡ ok c
      → next_loop p (suc f) s ≡ next_loop p f (record s { tasks = pre ++ post; current_task = c })
  unfolding visit
  drop-At a e c h = visit-At a ∙ (rw (e, h, a.split, remove-append pre t post (length pre) refl))

  pub ready-At :
      At p s pre (t ∷ post)
      → t.state ≡ TaskState.ready
      → next_loop p (suc f) s ≡ ok (record s { current_task = length pre }, length pre)
  unfolding visit
  ready-At a e = visit-At a ∙ (rw e)

-- The step from index `length pre` in a list that goes on with `post` behind one more task.
target-behind :
    (pre : List Task) (t : Task) (post : List Task) (n : ℕ)
    → n ≡ length (pre ++ (t ∷ post))
    → (if leb n (length pre + 1) then 0 else length pre + 1) ≡ target (pre ++ (t ∷ [])) post
target-behind pre t [] n e = ground (arith, length-append pre (t ∷ []))
target-behind pre t (u ∷ post) n e =
    ground (arith, length-append pre (t ∷ u ∷ post), length-append pre (t ∷ []))

-- The step to the same index, after a removal.
target-same :
    (pre post : List Task) (n i : ℕ)
    → n ≡ length (pre ++ post)
    → length pre ≡ i + 1
    → (if leb n (i + 1) then 0 else i + 1) ≡ target pre post
target-same pre [] n i e h = ground (arith, length-append pre [])
target-same pre (u ∷ post) n i e h = ground (arith, length-append pre (u ∷ post))

-- The invariant moves on with the loop.
module _ (p : Profile) (s : Scheduler) (pre : List Task) (t : Task) (post : List Task) where
  pub At-wait :
      At p s pre (t ∷ post) → At p (record s { current_task = length pre }) (pre ++ (t ∷ [])) post
  At-wait a = record {
    split = a.split ∙ sym (append_assoc pre (t ∷ []) post);
    small = rw (append_assoc pre (t ∷ []) post) a.small;
    next =
        advance_from p (record s { current_task = length pre }) (length pre) refl
          (omega (arith, length-append pre (t ∷ post), a.small))
        ∙ ap ok (target-behind pre t post (length s.tasks) (ap length a.split));
  }

  drop_small : At p s pre (t ∷ post) → length (pre ++ post) < u64_mod
  drop_small a = omega (arith, a.small, length-append pre (t ∷ post), length-append pre post)

  At-drop_behind :
      At p s pre (t ∷ post)
      → 0 < length pre
      → (c : ℕ) × (sub_mod p u64_mod (length pre) 1 ≡ ok c)
        × At p (record s { tasks = pre ++ post; current_task = c }) pre post
  At-drop_behind a h = (
    length pre - 1,
    sub_mod-ok p u64_mod (length pre) 1 h,
    record {
      split = refl;
      small = drop_small a;
      next =
          advance_from p (record s { tasks = pre ++ post; current_task = length pre - 1 })
            (length pre - 1) refl (omega (arith, length-append pre post, drop_small a))
          ∙ ap ok (target-same pre post (length (pre ++ post)) (length pre - 1) refl (omega arith));
    },
  )

target-nil : (post : List Task) → target [] post ≡ 0
target-nil [] = refl
target-nil (u ∷ post) = refl

-- At index 0 the subtraction wraps, which only a release build allows.
pub At-drop :
    (p : Profile) (s : Scheduler) (pre : List Task) (t : Task) (post : List Task)
    → At p s pre (t ∷ post)
    → (p ≡ release) ⊎ (0 < length pre)
    → (c : ℕ) × (sub_mod p u64_mod (length pre) 1 ≡ ok c)
      × At p (record s { tasks = pre ++ post; current_task = c }) pre post
At-drop p s pre t post a (inr h) = At-drop_behind p s pre t post a h
At-drop p s (x ∷ pre) t post a (inl h) = At-drop_behind p s (x ∷ pre) t post a (omega arith)
At-drop p s [] t post a (inl h) = (
  u64_mod - 1,
  rw h,
  record {
    split = refl;
    small = drop_small p s [] t post a;
    next =
        advance_wrapped p (record s { tasks = post; current_task = u64_mod - 1 }) h refl
        ∙ ap ok (sym (target-nil post));
  },
)

-- A finished task at the front is excluded where the subtraction panics.
pub drop_allowed :
    (p : Profile) (pre : List Task) (t : Task) (post : List Task)
    → Steps p (pre ++ (t ∷ post))
    → t.state ≡ TaskState.done
    → (p ≡ release) ⊎ (0 < length pre)
drop_allowed p pre t post (inl h) e = inl h
drop_allowed p [] t post (inr h) e = absurd (h e)
drop_allowed p (x ∷ pre) t post (inr h) e = inr (omega arith)

pub Steps-drop :
    (p : Profile) (pre : List Task) (t : Task) (post : List Task)
    → Steps p (pre ++ (t ∷ post))
    → t.state ≡ TaskState.done
    → Steps p (pre ++ post)
Steps-drop p pre t post (inl h) e = inl h
Steps-drop p [] t post (inr h) e = absurd (h e)
Steps-drop p (x ∷ pre) t post (inr h) e = inr h
