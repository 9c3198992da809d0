-- ===== src/Boot/Launch.antt =====
-- How the shell comes to run, and what a timer interrupt does while `init` holds the scheduler's lock.
use mathlib.Core.Path.{subst}
use lobster_os_legacy.Prelude.{
  ℕ, zero, suc, ◌+◌, ◌-◌, ◌≤◌, ◌≡◌, ◌⊎◌, take, inr, refl, ap, ◌∙◌, Option, some, true, false, List,
  [], ◌∷◌, Run, ok, out_of_fuel, ◌>>=◌, Profile, debug, release, get_elem?, arith,
}
use lobster_os_legacy.Paging.{Paging}
use lobster_os_legacy.Process.{
  Process, Machine, Selectors, user, userspace_stack, set_usermode_segments, activate,
}
use lobster_os_legacy.Process.Spawn.{Entry, Tables}
use lobster_os_legacy.Process.File.{ProcessSpawnError, Kernel, frame_of, spawn_from_file}
use lobster_os_legacy.Process.Spawned.{spawn_from_file-activate}
use lobster_os_legacy.Elf.{ElfHeader, from_slice, size_of_elf_header}
use lobster_os_legacy.Scheduler.{
  TaskState, Task, Scheduler, initial, tick, get_next_task, next_loop, push_task, enable,
  timer_interrupt_handler,
}
use lobster_os_legacy.Scheduler.Live.{IsLive}
use lobster_os_legacy.Scheduler.Inv.{ticks, ticks-IsLive}
use lobster_os_legacy.Boot.{Arrivals, unwrap, start_scheduler, launch}

abbrev first_task : TaskState → Process → Task
first_task st process = record { state = st; process = process; pid = 1 }

-- The scheduler when `init` returns.
abbrev started_scheduler : Process → Scheduler
started_scheduler process = record initial {
  tasks = first_task TaskState.ready process ∷ [];
  current_task_ticks = 0;
  next_task_id = 2;
  is_enabled = true;
}

-- The scheduler once its only task runs.
abbrev first_scheduler : Process → Scheduler
first_scheduler process = record initial {
  tasks = first_task TaskState.running process ∷ [];
  current_task_ticks = 0;
  next_task_id = 2;
  current_task = 0;
  is_enabled = true;
}

abbrev pub undisturbed : Arrivals
undisturbed = record { after_lock = 0; after_push = 0; after_enable = 0 }

abbrev unlocked : Machine → Machine
unlocked m = record m { scheduler_locked = false }

-- The first quantum passes without a task, then the only one is chosen.
first_switch :
    (p : Profile) (g : Selectors) (f : ℕ) (process : Process) (m : Machine)
    → ticks p g (suc f) 20 (started_scheduler process, unlocked m)
      ≡ ok (first_scheduler process, unlocked (activate g process (unlocked m)))
unfolding ticks timer_interrupt_handler tick get_next_task next_loop
first_switch debug g f process m = refl
first_switch release g f process m = refl

first-IsLive : (p : Profile) (process : Process) → IsLive p (first_scheduler process)
first-IsLive p process = record {
  current = first_task TaskState.running process;
  look = refl;
  runs = refl;
  alone = λ i t h r. only_one i t h;
  small = omega arith;
  ticks = omega arith;
  enabled = refl;
  steps = inr (λ e. cc);
}
  where
    only_one :
        (i : ℕ) (t : Task)
        → get_elem? (first_task TaskState.running process ∷ []) i ≡ some t
        → i ≡ 0
    only_one zero t h = refl
    only_one (suc i) t h = cc

start_undisturbed :
    (p : Profile) (g : Selectors) (fuel : ℕ) (process : Process) (m : Machine)
    → m.scheduler_locked ≡ false
    → m.interrupts ≡ true
    → start_scheduler p g fuel undisturbed process initial m
      ≡ ok (started_scheduler process, unlocked m)
unfolding start_scheduler push_task enable ticks
start_undisturbed debug g fuel process m free on = rw (free, on) refl
start_undisturbed release g fuel process m free on = rw (free, on) refl

-- An interrupt under the lock.
start_interrupted :
    (p : Profile) (g : Selectors) (fuel a b c : ℕ) (process : Process) (m : Machine)
    → m.scheduler_locked ≡ false
    → m.interrupts ≡ true
    → 1 ≤ a + b + c
    → start_scheduler p g fuel
        (record { after_lock = a; after_push = b; after_enable = c })
        process
        initial
        m
      ≡ out_of_fuel
unfolding start_scheduler push_task enable ticks timer_interrupt_handler
start_interrupted p g fuel (suc a) b c process m free on some_come = rw (free, on) refl
start_interrupted debug g fuel zero (suc b) c process m free on some_come = rw (free, on) refl
start_interrupted release g fuel zero (suc b) c process m free on some_come = rw (free, on) refl
start_interrupted debug g fuel zero zero (suc c) process m free on some_come = rw (free, on) refl
start_interrupted release g fuel zero zero (suc c) process m free on some_come = rw (free, on) refl
start_interrupted p g fuel zero zero zero process m free on some_come = absurd (omega arith)

module _ (p : Profile) (g : Selectors) (fuel : ℕ) (e : Entry) (x : Paging)
    (translate_addr : ℕ → Option ℕ) (box_addr : ℕ) (new_mapper : List ℕ → Tables → x.M)
    (level_4 : x.M → List ℕ) (tables_of : x.M → Tables) where
  -- The rest of `init` once the process is made.
  then_started :
      (a : Arrivals) (shell : List ℕ) (k k' : Kernel x.F) (q : Process)
      (o : Run (Scheduler × Machine))
      → spawn_from_file p e x translate_addr box_addr new_mapper level_4 tables_of shell k
        ≡ ok (inr q, k')
      → start_scheduler p g fuel a q initial k'.machine ≡ o
      → launch p g fuel e x translate_addr box_addr new_mapper level_4 tables_of a shell initial k
        ≡ (o >>= λ out. ok (out.0, record k' { machine = out.1 }))
  unfolding launch
  then_started a shell k k' q o made started =
      ap
        (λ r. r >>= λ made'. unwrap made'.0 >>= λ process.
          start_scheduler p g fuel a process initial made'.1.machine >>= λ out.
          ok (out.0, record (made'.1) { machine = out.1 }))
        made
      ∙ ap (λ r. r >>= λ out. ok (out.0, record k' { machine = out.1 })) started

  -- The 20th timer interrupt from a scheduler and a kernel on switches to the program of an ELF file:
  -- in ring 3 at the entry point of its valid header, with the user stack, in the context of its own
  -- page table. From then on any number of timer interrupts is handled.
  abbrev pub Runs : List ℕ → Scheduler → Kernel x.F → Type 0
  Runs file s k1 =
      (out : Scheduler × Machine) × (ticks p g fuel 20 (s, k1.machine) ≡ ok out)
      × (header : ElfHeader) × (from_slice (take size_of_elf_header file) ≡ inr header)
      × (addr : ℕ) × (translate_addr box_addr ≡ some addr)
      × (out.1.control
          ≡ user header.program_entry (set_usermode_segments g).0 0x200 userspace_stack
              (set_usermode_segments g).1)
      × (out.1.cr3 ≡ frame_of addr)
      × ((n : ℕ)
          → (later : Scheduler × Machine) × (ticks p g fuel n out ≡ ok later) × IsLive p later.0)

  -- The program comes to run. If `spawn_from_file` returns for its bytes, with the scheduler's lock
  -- free before it, and no timer interrupt comes while the lock is held, then the end of `init` comes
  -- to an end itself and leaves a scheduler from which the program runs. Fuel 2 is enough.
  pub launch-Runs :
      (shell : List ℕ) (k k' : Kernel x.F) (r : ProcessSpawnError ⊎ Process)
      → spawn_from_file p e x translate_addr box_addr new_mapper level_4 tables_of shell k
        ≡ ok (r, k')
      → k.machine.scheduler_locked ≡ false
      → 2 ≤ fuel
      → (s : Scheduler) × (k1 : Kernel x.F) × (launch p g fuel e x translate_addr box_addr
            new_mapper level_4 tables_of undisturbed shell initial k
          ≡ ok (s, k1))
        × Runs shell s k1
  launch-Runs shell k k' r made free enough =
      let (cr3, on, same, q, is_q, header, valid, addr, at, runs) =
        spawn_from_file-activate p e x translate_addr box_addr new_mapper level_4 tables_of shell k
          k' r made in
      let m = unlocked k'.machine in
      let first : Scheduler × Machine = (first_scheduler q, unlocked (activate g q m)) in
      let enough' : suc (fuel - 1) ≡ fuel = omega arith in
      (
        started_scheduler q,
        record k' { machine = m },
        then_started undisturbed shell k k' q (ok (started_scheduler q, m))
            (made ∙ ap (λ z. ok (z, k')) is_q)
            (start_undisturbed p g fuel q k'.machine (same ∙ free) on),
        (
          first,
          subst (λ f. ticks p g f 20 (started_scheduler q, m) ≡ ok first) enough'
              (first_switch p g (fuel - 1) q k'.machine),
          header,
          valid,
          addr,
          at,
          (runs g m).0,
          (runs g m).1,
          λ n.
              let (later, run, live, free') =
                ticks-IsLive p g fuel n (first_scheduler q) (unlocked (activate g q m))
                  (first-IsLive p q) refl (omega arith) in
              (later, run, live),
        ),
      )

  -- `init` holds the scheduler's lock with interrupts on, and the handler of the timer waits for that
  -- lock. If `spawn_from_file` returns for the shell's bytes, with the lock free before it, and at
  -- least one timer interrupt comes after `init` took the lock and before it gave it back, the
  -- kernel hangs: no fuel is enough.
  pub launch-interrupted :
      (a : Arrivals) (shell : List ℕ) (k k' : Kernel x.F) (r : ProcessSpawnError ⊎ Process)
      → spawn_from_file p e x translate_addr box_addr new_mapper level_4 tables_of shell k
        ≡ ok (r, k')
      → k.machine.scheduler_locked ≡ false
      → 1 ≤ a.after_lock + a.after_push + a.after_enable
      → launch p g fuel e x translate_addr box_addr new_mapper level_4 tables_of a shell initial k
        ≡ out_of_fuel
  launch-interrupted a shell k k' r made free some_come =
      let (cr3, on, same, q, is_q, header, valid, addr, at, runs) =
        spawn_from_file-activate p e x translate_addr box_addr new_mapper level_4 tables_of shell k
          k' r made in
      then_started a shell k k' q out_of_fuel (made ∙ ap (λ z. ok (z, k')) is_q) (
        start_interrupted p g fuel a.after_lock a.after_push a.after_enable q k'.machine
          (same ∙ free) on some_come)
