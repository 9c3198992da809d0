-- ===== src/Executor/Keyboard.antt =====
-- The scancodes: `add_scancode` and `ScancodeStream` of src/task/keyboard.rs, and
-- `keyboard_interrupt_handler` of src/interrupts.rs. An interrupt can come between any two steps of
-- `poll_next`; its arrivals there are lists.
use lobster_os_legacy.Prelude.{ℕ, Option, none, some, List, [], ◌∷◌, Run, ok, panic, ◌>>=◌, expect}
use lobster_os_legacy.Executor.{queue_push}

abbrev pub queue_size : ℕ
queue_size = 100

-- `queue` is the static queue once it is made, `waker` the waker that is registered, `woken` the
-- wakers that were woken, the last one first.
pub record Keyboard : Type 0 where
  pub queue : Option (List ℕ)
  pub waker : Option ℕ
  pub woken : List ℕ

-- `AtomicWaker::wake` takes the waker that is registered and wakes it.
abbrev pub woken_by : Keyboard → Option ℕ → Keyboard
woken_by k none = k
woken_by k (some w) = record k { waker = none; woken = w ∷ k.woken }

abbrev pub wake : Keyboard → Keyboard
wake k = woken_by k k.waker

abbrev pub added : Keyboard → Option (List ℕ) → Keyboard
added k none = k
added k (some q) = wake (record k { queue = some q })

abbrev pub to_queue : Keyboard → ℕ → Option (List ℕ) → Keyboard
to_queue k scancode none = k
to_queue k scancode (some q) = added k (queue_push queue_size q scancode)

-- A full queue, or none, drops the scancode with a warning.
unfoldable pub add_scancode : ℕ → Keyboard → Keyboard
add_scancode scancode k = to_queue k scancode k.queue

-- The handler reads the scancode from the port and ends the interrupt, whose number is 33; `notified`
-- are the numbers that the PICs were told, the last one first.
unfoldable pub keyboard_interrupt_handler : ℕ → Keyboard × List ℕ → Keyboard × List ℕ
unfolding add_scancode
keyboard_interrupt_handler scancode (k, notified) = (add_scancode scancode k, 33 ∷ notified)

-- `ScancodeStream::new` makes the queue, once.
abbrev pub made : Keyboard → Option (List ℕ) → Run Keyboard
made k none = ok (record k { queue = some [] })
made k (some q) = panic

abbrev pub new : Keyboard → Run Keyboard
new k = made k k.queue

-- Interrupts in turn.
unfoldable pub arrivals : List ℕ → Keyboard → Keyboard
unfolding add_scancode
arrivals [] k = k
arrivals (c ∷ cs) k = arrivals cs (add_scancode c k)

-- The second `pop`, after the waker is registered.
abbrev pub pop_registered : Keyboard → List ℕ → Option ℕ × Keyboard
pop_registered k [] = (none, k)
pop_registered k (c ∷ q) = (some c, record k { queue = some q; waker = none })

-- The waker is registered; then `later` arrive, then the second `pop` runs.
abbrev pub register : ℕ → List ℕ → Keyboard → Run (Option ℕ × Keyboard)
register w later k = do
  let k' = arrivals later (record k { waker = some w })
  q ← expect k'.queue
  ok (pop_registered k' q)

-- The first `pop`; if it finds nothing, `between` arrive before the waker is registered.
abbrev pub pop_first : ℕ → List ℕ → List ℕ → Keyboard → List ℕ → Run (Option ℕ × Keyboard)
pop_first w between later k [] = register w later (arrivals between k)
pop_first w between later k (c ∷ q) = ok (some c, record k { queue = some q })

-- `none` is pending.
unfoldable pub poll_next : ℕ → List ℕ → List ℕ → Keyboard → Run (Option ℕ × Keyboard)
unfolding arrivals
poll_next w between later k = do q ← expect k.queue; pop_first w between later k q
