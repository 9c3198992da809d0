-- ===== src/Executor/Stream.antt =====
-- No scancode and no wake-up is lost: `poll_next` of src/task/keyboard.rs with interrupts between
-- its steps.
use lobster_os_legacy.Prelude.{
  append-empty, snoc-append, length-snoc, ℕ, ◌+◌, ◌≤◌, ◌<◌, ◌≡◌, ◌⊎◌, inl, inr, refl, ap, sym, ◌∙◌,
  Option, none, some, List, [], ◌∷◌, ◌++◌, lt→ltb, if◌then◌else◌, length, ok, ◌>>=◌, expect, arith,
}
use lobster_os_legacy.Executor.Keyboard.{
  Keyboard, queue_size, wake, woken_by, added, to_queue, add_scancode, arrivals, pop_registered,
  register, pop_first, poll_next,
}

wake-queue : (k : Keyboard) → (wake k).queue ≡ k.queue
wake-queue k = on k.waker
  where
    on : (o : Option ℕ) → (woken_by k o).queue ≡ k.queue
    on none = refl
    on (some w) = refl

add_scancode-queue :
    (k : Keyboard) (q : List ℕ) (c : ℕ)
    → k.queue ≡ some q
    → length q < queue_size
    → (add_scancode c k).queue ≡ some (q ++ (c ∷ []))
unfolding add_scancode
add_scancode-queue k q c at room =
    ap (λ o. (to_queue k c o).queue) at
    ∙ ap (λ b. (added k (if b then some (q ++ (c ∷ [])) else none)).queue)
        (lt→ltb (length q) queue_size room)
    ∙ wake-queue (record k { queue = some (q ++ (c ∷ [])) })

arrivals-queue :
    (k : Keyboard) (q cs : List ℕ)
    → k.queue ≡ some q
    → length q + length cs ≤ queue_size
    → (arrivals cs k).queue ≡ some (q ++ cs)
unfolding arrivals
arrivals-queue k q [] at room = at ∙ ap some (sym (append-empty q))
arrivals-queue k q (c ∷ cs) at room =
    let size = length-snoc q c in
    arrivals-queue (add_scancode c k) (q ++ (c ∷ [])) cs (add_scancode-queue k q c at (omega arith))
      (omega arith)
    ∙ ap some (snoc-append q cs c)

-- The code that is taken and those that stay, or that there are none and the waker is registered:
-- the next scancode goes to the queue and wakes it.
abbrev pub Taken : ℕ → List ℕ → Option ℕ × Keyboard → Type 0
Taken w seen r =
    ((c : ℕ) × (rest : List ℕ) × (seen ≡ c ∷ rest) × (r.0 ≡ some c) × (r.1.queue ≡ some rest))
    ⊎ ((seen ≡ [])
        × (r.0 ≡ none)
        × ((c : ℕ)
            → ((add_scancode c r.1).queue ≡ some (c ∷ []))
              × ((add_scancode c r.1).woken ≡ w ∷ r.1.woken)))

woken_next :
    (w c : ℕ) (k : Keyboard)
    → k.queue ≡ some []
    → k.waker ≡ some w
    → ((add_scancode c k).queue ≡ some (c ∷ [])) × ((add_scancode c k).woken ≡ w ∷ k.woken)
unfolding add_scancode
woken_next w c k at waits = (
  add_scancode-queue k [] c at (omega arith),
  ap (λ o. (to_queue k c o).woken) at
      ∙ ap (λ o. (woken_by (record k { queue = some (c ∷ []) }) o).woken) waits,
)

-- What the queue holds when the second `pop` runs.
pop_registered-Taken :
    (w : ℕ) (k : Keyboard) (q : List ℕ)
    → k.queue ≡ some q
    → (q ≡ [] → k.waker ≡ some w)
    → Taken w q (pop_registered k q)
pop_registered-Taken w k [] at waits = inr (refl, refl, λ c. woken_next w c k at (waits refl))
pop_registered-Taken w k (c ∷ q) at waits = inl (c, q, refl, refl, refl)

later_empty :
    (w : ℕ) (first later : List ℕ) (k : Keyboard)
    → first ++ later ≡ []
    → k.waker ≡ some w
    → (arrivals later k).waker ≡ some w
unfolding arrivals
later_empty w [] [] k e h = h
later_empty w [] (c ∷ later) k e h = cc
later_empty w (c ∷ first) later k e h = cc

register-Taken :
    (w : ℕ) (between later : List ℕ) (k : Keyboard)
    → k.queue ≡ some between
    → length between + length later ≤ queue_size
    → (r : Option ℕ × Keyboard) × (register w later k ≡ ok r) × Taken w (between ++ later) r
register-Taken w between later k at room =
    let k' = arrivals later (record k { waker = some w }) in
    let full = arrivals-queue (record k { waker = some w }) between later at room in
    (
      pop_registered k' (between ++ later),
      ap (λ o. expect o >>= λ q. ok (pop_registered k' q)) full,
      pop_registered-Taken w k' (between ++ later) full
          (λ e. later_empty w between later (record k { waker = some w }) e refl),
    )

-- What `poll_next` sees: the queue or, if that is empty, what arrives before its second `pop`.
abbrev pub seen : List ℕ → List ℕ → List ℕ → List ℕ
seen [] between later = between ++ later
seen (c ∷ q) between later = c ∷ q

-- With interrupts at any points of `poll_next`, and no more scancodes than the queue holds, it gives
-- the oldest scancode and keeps the others in order; it is pending only if none has come, and then
-- the next scancode wakes the waker that it registered.
pub poll_next-Taken :
    (w : ℕ) (q between later : List ℕ) (k : Keyboard)
    → k.queue ≡ some q
    → length between + length later ≤ queue_size
    → (r : Option ℕ × Keyboard) × (poll_next w between later k ≡ ok r)
      × Taken w (seen q between later) r
unfolding poll_next
poll_next-Taken w [] between later k at room =
    let (r, e, taken) =
      register-Taken w between later (arrivals between k)
        (arrivals-queue k [] between at (omega arith)) room in
    (r, ap (λ o. expect o >>= pop_first w between later k) at ∙ e, taken)
poll_next-Taken w (c ∷ q) between later k at room = (
  (some c, record k { queue = some q }),
  ap (λ o. expect o >>= pop_first w between later k) at,
  inl (c, q, refl, refl, refl),
)
