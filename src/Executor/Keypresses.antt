-- ===== src/Executor/Keypresses.antt =====
-- `print_keypresses` of src/task/keyboard.rs as it is polled. The decoder is that of the crate
-- pc_keyboard, a parameter; what is printed is the list of the decoded keys.
use lobster_os_legacy.Prelude.{
  ℕ, zero, suc, ◌<◌, ◌≡◌, ◌⊎◌, inl, inr, ap, ◌∙◌, Option, none, some, List, [], ◌∷◌, ◌++◌, length,
  Run, ok, out_of_fuel, ◌>>=◌, arith,
}
use lobster_os_legacy.Executor.Keyboard.{Keyboard, add_scancode, poll_next}
use lobster_os_legacy.Executor.Stream.{poll_next-Taken}

pub data DecodedKey : Type 0 where
  unicode raw_key : ℕ → DecodedKey

-- The state of the decoder, its events and its errors.
pub record Decoder : Type 1 where
  pub K : Type 0
  pub Event : Type 0
  pub Error : Type 0
  pub add_byte : ℕ → K → (Error ⊎ Option Event) × K
  pub process_keyevent : Event → K → Option DecodedKey × K

module _ (x : Decoder) where
  open x use {K, Event, Error, add_byte, process_keyevent}

  abbrev pub print : List DecodedKey → Option DecodedKey × K → K × List DecodedKey
  print printed (none, keyboard) = (keyboard, printed)
  print printed (some key, keyboard) = (keyboard, printed ++ (key ∷ []))

  abbrev pub on_event : List DecodedKey → (Error ⊎ Option Event) × K → K × List DecodedKey
  on_event printed (inl error, keyboard) = (keyboard, printed)
  on_event printed (inr none, keyboard) = (keyboard, printed)
  on_event printed (inr (some key_event), keyboard) =
      print printed (process_keyevent key_event keyboard)

  -- The body of the loop for a scancode.
  unfoldable pub press : ℕ → K × List DecodedKey → K × List DecodedKey
  press scancode (keyboard, printed) = on_event printed (add_byte scancode keyboard)

  -- The loop goes on with a scancode, and stops where the stream is pending.
  abbrev pub on_polled :
      (Keyboard → K × List DecodedKey → Run (Keyboard × (K × List DecodedKey)))
      → K × List DecodedKey
      → Option ℕ × Keyboard
      → Run (Keyboard × (K × List DecodedKey))
  on_polled again s (none, k) = ok (k, s)
  on_polled again s (some scancode, k) = again k (press scancode s)

  -- A poll of the task, while no scancode comes.
  unfoldable pub print_keypresses :
      (fuel waker : ℕ) → Keyboard → K × List DecodedKey → Run (Keyboard × (K × List DecodedKey))
  print_keypresses zero waker k s = out_of_fuel
  print_keypresses (suc n) waker k s =
      poll_next waker [] [] k >>= on_polled (print_keypresses n waker) s

  -- The scancodes one after another.
  abbrev pub press_all : List ℕ → K × List DecodedKey → K × List DecodedKey
  press_all [] s = s
  press_all (c ∷ cs) s = press_all cs (press c s)

  -- The queue is empty, and the next scancode goes to it and wakes the task.
  abbrev pub Waits : ℕ → Keyboard → Type 0
  Waits waker k =
      (c : ℕ)
      → ((add_scancode c k).queue ≡ some (c ∷ [])) × ((add_scancode c k).woken ≡ waker ∷ k.woken)

  -- A poll of `print_keypresses` takes every scancode of the queue, in order: it prints the keys that
  -- the decoder makes of them, one scancode after another, and then waits, so that the next scancode
  -- wakes the task. Fuel above the number of scancodes is enough, and it does not panic.
  pub print_keypresses-press_all :
      (fuel waker : ℕ) (q : List ℕ) (k : Keyboard) (s : K × List DecodedKey)
      → k.queue ≡ some q
      → length q < fuel
      → (k' : Keyboard) × (print_keypresses fuel waker k s ≡ ok (k', press_all q s))
        × Waits waker k'
  unfolding print_keypresses
  print_keypresses-press_all zero waker q k s at lt = absurd (omega arith)
  print_keypresses-press_all (suc n) waker [] k s at lt =
      let (r, polled, taken) = poll_next-Taken waker [] [] [] k at (omega arith) in
      let again = print_keypresses n waker in
      elim taken [
        | inl (c, rest, e, h, l) ↦ cc
        | inr (e, pending, waits) ↦ (
          r.1,
          ap (λ o. o >>= on_polled again s) polled ∙ ap (λ o. on_polled again s (o, r.1)) pending,
          waits,
        )
      ]
  print_keypresses-press_all (suc n) waker (c ∷ q) k s at lt =
      let (r, polled, taken) = poll_next-Taken waker (c ∷ q) [] [] k at (omega arith) in
      let again = print_keypresses n waker in
      elim taken [
        | inr (e, pending, waits) ↦ cc
        | inl (c', rest, e, first, left) ↦
            let same : rest ≡ q = cc in
            let code : r.0 ≡ some c = cc in
            let (k', done, waits) =
              print_keypresses-press_all n waker q r.1 (press c s) (left ∙ ap some same)
                (omega arith) in
            (
              k',
              ap (λ o. o >>= on_polled again s) polled
                  ∙ ap (λ o. on_polled again s (o, r.1)) code
                  ∙ done,
              waits,
            )
      ]
