-- ===== src/Executor/Tests.antt =====
-- A task that wakes itself as often as its state says, and a keyboard with two scancodes.
use lobster_os_legacy.Prelude.{
  ℕ, zero, suc, ◌+◌, ◌==◌, if◌then◌else◌, inl, inr, ◌≡◌, refl, Option, none, some, Bool, true,
  false, List, [], ◌∷◌, ok, arith,
}
use lobster_os_legacy.Executor.{Executor, Cpu}
use lobster_os_legacy.Executor.Ready.{IsBudget}
use lobster_os_legacy.Executor.Loop.{awake, Rested, run_round, run_round-Rested}
use lobster_os_legacy.Executor.Keyboard.{Keyboard, poll_next}
use lobster_os_legacy.Executor.Keypresses.{
  Decoder, unicode, press, print_keypresses, Waits, print_keypresses-press_all,
}
use lobster_os_legacy.Executor.Stream.{Taken, poll_next-Taken}

abbrev poll : ℕ → ℕ → ℕ × Bool × List ℕ
poll id zero = (0, true, [])
poll id (suc n) = (n, false, id ∷ [])

abbrev wakes : ℕ → ℕ → ℕ
wakes id n = n

budget : IsBudget poll wakes
budget id zero = omega arith
budget id (suc n) = omega arith

abbrev executor : Executor ℕ
executor = record { tasks = (7, 2) ∷ (8, 0) ∷ []; task_queue = 7 ∷ 9 ∷ 8 ∷ []; waker_cache = [] }

abbrev keyboard : Keyboard
keyboard = record { queue = some []; waker = none; woken = [] }

poll_next-Taken_example :
    (r : Option ℕ × Keyboard) × (poll_next 5 (30 ∷ []) (31 ∷ []) keyboard ≡ ok r)
    × Taken 5 (30 ∷ 31 ∷ []) r
poll_next-Taken_example = poll_next-Taken 5 [] (30 ∷ []) (31 ∷ []) keyboard refl (omega arith)

run_round-Rested_example :
    (ex' : Executor ℕ) × (cpu' : Cpu) × (run_round poll 10
        (8 ∷ [])
        (7 ∷ [])
        (7 ∷ 8 ∷ [])
        (executor, awake)
      ≡ ok (ex', cpu'))
    × Rested poll (8 ∷ 7 ∷ 7 ∷ 8 ∷ []) ex' cpu'
run_round-Rested_example =
    run_round-Rested poll wakes 10 (8 ∷ []) (7 ∷ []) (7 ∷ 8 ∷ []) executor budget (omega arith)
      (omega arith) (omega arith)

-- Every scancode is a key, but for 0.
abbrev decoder : Decoder
decoder = record {
  K = ℕ;
  Event = ℕ;
  Error = ℕ;
  add_byte = λ c n. (if c == 0 then inl 0 else inr (some c), n + 1);
  process_keyevent = λ e n. (some (unicode e), n);
}

print_keypresses-press_all_example :
    (k' : Keyboard) × (print_keypresses decoder 4 5
        (record keyboard { queue = some (30 ∷ 0 ∷ 31 ∷ []) })
        (0, [])
      ≡ ok (k', (3, unicode 30 ∷ unicode 31 ∷ [])))
    × Waits decoder 5 k'
unfolding press
print_keypresses-press_all_example =
    print_keypresses-press_all decoder 4 5 (30 ∷ 0 ∷ 31 ∷ [])
      (record keyboard { queue = some (30 ∷ 0 ∷ 31 ∷ []) }) (0, []) refl (omega arith)
