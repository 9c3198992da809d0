-- ===== src/Disk/Commands.antt =====
-- Commands at a drive, whether they read or write: a free slot, and a run to its end.
use Prim.Native.Nat.{bit_and, bit_or}
use lobster_os_legacy.Prelude.{
  if◌then◌else◌, ℕ, zero, suc, ◌+◌, ◌-◌, ◌/◌, ◌%◌, ◌^◌, ◌<◌, ◌≤◌, ◌≢◌, ◌≡◌, refl, ap, ◌∙◌, some,
  Bool, List, true, false, ◌==◌, ==_iff, ≢→==, Run, ok, ◌>>=◌, expect, Profile, u32_mod, get_elem?,
  arith,
}
use lobster_os_legacy.Disk.{HbaCommandHeader, HbaCommandTable, AhciPort}
use lobster_os_legacy.Disk.Layout.{
  register_addr, offset_of, hba, interrupt_status, task_file_data, sata_active, command_issue,
}
use lobster_os_legacy.Disk.Port.{Hardware, wait, waited}
use lobster_os_legacy.Disk.Transfer.{
  find_command_slot, wait_done, polled, check_done, run_command, open_slot,
}
use lobster_os_legacy.Disk.Calm.{no_error, idle_slot, with_memory, Calm}

module _ (p : Profile) (x : Hardware) (with_byte_count : ℕ → Run ℕ) (port : AhciPort)
    (drive : Calm x port.hba_mem port.port) where
  open x use {D, read_volatile, write_volatile, issue}
  open drive use {Idle}

  find_slot-Idle :
      (d : D)
      → Idle d
      → (d' : D) × (find_command_slot p x with_byte_count port d ≡ ok (some 0, d')) × Idle d'
  unfolding find_command_slot
  find_slot-Idle d idle =
      let (active, i1) = drive.no_active d idle in
      let d1 = (read_volatile (register_addr port.hba_mem port.port sata_active) d).1 in
      let (issued, i2) = drive.no_issued d1 i1 in
      let d2 = (read_volatile (register_addr port.hba_mem port.port command_issue) d1).1 in
      let (count, i3) = drive.slots d2 i2 in
      let cap = (read_volatile (port.hba_mem + offset_of hba 0) d2).0 in
      let d3 = (read_volatile (port.hba_mem + offset_of hba 0) d2).1 in
      (d3, ap (λ r. r >>= λ s. ok (s, d3)) (idle_slot p _ _ cap active issued count), i3)

  pub open_slot-Idle :
      (k : ℕ) (ports : List AhciPort) (d : D)
      → get_elem? ports k ≡ some port
      → Idle d
      → (d' : D) × (open_slot p x with_byte_count k ports d ≡ ok (port, 0, d')) × Idle d'
  unfolding open_slot
  open_slot-Idle k ports d at idle =
      let d1 =
        write_volatile (register_addr port.hba_mem port.port interrupt_status) (u32_mod - 1) d in
      let (d2, found, i2) = find_slot-Idle d1 (drive.clear d idle) in
      (d2, (rw (at, expect, ◌>>=◌, found) refl), i2)

  -- How a command ends: the slot's bit is clear, or the task file error bit is set; then `After`.
  abbrev pub Ends : Bool → ℕ → ℕ → Type 0 → Type 0
  Ends true ci is after = (bit_and 1 ci ≡ 0) × (is / 2 ^ 30 % 2 ≡ 0) × after
  Ends false ci is after = (bit_and 1 ci ≢ 0) × (is / 2 ^ 30 % 2 ≡ 1) × after

  -- A command under way, and what holds once it is done: `Busy` for some more polls, then `After`.
  module _ (good : Bool) (hs : List HbaCommandHeader) (ts : List HbaCommandTable)
      (Busy : ℕ → D → Type 0) (After : D → Type 0)
      (working : (d : D) (n : ℕ)
        → Busy (suc n) d
        → let ci = read_volatile (register_addr port.hba_mem port.port command_issue) d in
          let is = read_volatile (register_addr port.hba_mem port.port interrupt_status) ci.1 in
          (bit_and 1 ci.0 ≢ 0) × (is.0 / 2 ^ 30 % 2 ≡ 0) × Busy n is.1)
      (finished : (d : D)
        → Busy 0 d
        → let ci = read_volatile (register_addr port.hba_mem port.port command_issue) d in
          let is = read_volatile (register_addr port.hba_mem port.port interrupt_status) ci.1 in
          Ends good ci.0 is.0 (After is.1)) where
    -- The loop and the check after it.
    abbrev Waited : ℕ → D → Type 0
    Waited fuel d =
        (w : Bool × D) × (wait_done p x with_byte_count fuel 0 (with_memory port hs ts) d ≡ ok w)
        × (d' : D) × (check_done p x with_byte_count (with_memory port hs ts) w ≡ (good, d'))
        × After d'

    -- One round of the loop, whose two tests come out as they do.
    round :
        (fuel : ℕ) (d : D) (clear failed : Bool)
        → let ci = read_volatile (register_addr port.hba_mem port.port command_issue) d in
          let is = read_volatile (register_addr port.hba_mem port.port interrupt_status) ci.1 in
          (bit_and 1 ci.0 == 0) ≡ clear
          → (is.0 / 2 ^ 30 % 2 == 1) ≡ failed
          → wait_done p x with_byte_count (suc fuel) 0 (with_memory port hs ts) d
            ≡ polled p x with_byte_count clear failed ci.1 is.1
                (wait_done p x with_byte_count fuel 0 (with_memory port hs ts) is.1)
    unfolding wait_done
    round fuel d clear failed c f =
        let ci = read_volatile (register_addr port.hba_mem port.port command_issue) d in
        let is = read_volatile (register_addr port.hba_mem port.port interrupt_status) ci.1 in
        let rest = wait_done p x with_byte_count fuel 0 (with_memory port hs ts) is.1 in
        ap (λ b. polled p x with_byte_count b (is.0 / 2 ^ 30 % 2 == 1) ci.1 is.1 rest) c
        ∙ ap (λ b. polled p x with_byte_count clear b ci.1 is.1 rest) f

    last_round :
        (fuel : ℕ) (d : D) (g : Bool)
        → g ≡ good
        → let ci = read_volatile (register_addr port.hba_mem port.port command_issue) d in
          let is = read_volatile (register_addr port.hba_mem port.port interrupt_status) ci.1 in
          Ends g ci.0 is.0 (After is.1) → Waited (suc fuel) d
    last_round fuel d true same (clear, fine, after) =
        let ci = read_volatile (register_addr port.hba_mem port.port command_issue) d in
        let is = read_volatile (register_addr port.hba_mem port.port interrupt_status) ci.1 in
        (
          (true, ci.1),
          round fuel d true false ((==_iff _ 0).1 clear) (no_error is.0 fine),
          is.1,
          ap (λ b. (if b then false else true, is.1)) (no_error is.0 fine)
              ∙ ap (λ b. (b, is.1)) same,
          after,
        )
    last_round fuel d false same (set_bit, failed, after) =
        let ci = read_volatile (register_addr port.hba_mem port.port command_issue) d in
        let is = read_volatile (register_addr port.hba_mem port.port interrupt_status) ci.1 in
        (
          (false, is.1),
          round fuel d false true (≢→== _ 0 set_bit) ((==_iff _ 1).1 failed),
          is.1,
          ap (λ b. (b, is.1)) same,
          after,
        )

    wait_done-Busy : (fuel n : ℕ) (d : D) → n < fuel → Busy n d → Waited fuel d
    wait_done-Busy zero n d lt busy = absurd (omega arith)
    wait_done-Busy (suc fuel) zero d lt busy = last_round fuel d good refl (finished d busy)
    wait_done-Busy (suc fuel) (suc n) d lt busy =
        let (set_bit, fine, later) = working d n busy in
        let ci = read_volatile (register_addr port.hba_mem port.port command_issue) d in
        let is = read_volatile (register_addr port.hba_mem port.port interrupt_status) ci.1 in
        let (w, done, d', checked, after) = wait_done-Busy fuel n is.1 (omega arith) later in
        (
          w,
          round fuel d false false (≢→== _ 0 set_bit) (no_error is.0 fine) ∙ done,
          d',
          checked,
          after,
        )

    pub run_command-After :
        (fuel bound : ℕ) (d : D)
        → bound + 1 < fuel
        → Idle d
        → ((d1 : D)
            → Idle d1
            → (n : ℕ) × (n ≤ bound) × Busy n (issue (with_memory port hs ts) 1 d1))
        → (d' : D) × (run_command p x with_byte_count fuel 0 (with_memory port hs ts) d
            ≡ ok (good, d'))
          × After d'
    unfolding run_command wait
    run_command-After zero bound d lt idle start = absurd (omega arith)
    run_command-After (suc fuel) bound d lt idle start =
        let (ready, i1) = drive.ready d idle in
        let d1 = (read_volatile (register_addr port.hba_mem port.port task_file_data) d).1 in
        let (issued, i2) = drive.no_issued d1 i1 in
        let d2 = (read_volatile (register_addr port.hba_mem port.port command_issue) d1).1 in
        let (n, le, busy) = start d2 i2 in
        let (w, done, d'', checked, after) = wait_done-Busy (suc fuel) n _ (omega arith) busy in
        (
          d'',
          ap
                (λ b.
                  waited x b d1 (
                    wait x fuel (register_addr port.hba_mem port.port task_file_data)
                      (λ tfd. bit_and 0x88 tfd == 0) d1)
                  >>= from_ready)
                ((==_iff _ 0).1 ready)
              ∙ ap
                  (λ c.
                    wait_done p x with_byte_count (suc fuel) 0 (with_memory port hs ts)
                      (issue (with_memory port hs ts) (bit_or c 1) d2)
                    >>= last)
                  issued
              ∙ ap (λ r. r >>= last) done
              ∙ ap ok checked,
          after,
        )
      where
        last : Bool × D → Run (Bool × D)
        last done = ok (check_done p x with_byte_count (with_memory port hs ts) done)

        from_ready : D → Run (Bool × D)
        from_ready d1 =
            let ci = read_volatile (register_addr port.hba_mem port.port command_issue) d1 in
            wait_done p x with_byte_count (suc fuel) 0 (with_memory port hs ts)
              (issue (with_memory port hs ts) (bit_or ci.0 1) ci.1)
            >>= last
