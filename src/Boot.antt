-- ===== src/Boot.antt =====
-- The end of `init` of src/lib.rs: the shell's process is made and handed to the scheduler. Interrupts
-- are on there, and a timer interrupt may come between any two steps.
pub mod Launch
pub mod Shell
pub mod Init
mod Drives
mod DriveTests
mod Tests
use lobster_os_legacy.Prelude.{
  ℕ, Option, List, Bool, true, false, ◌⊎◌, inl, inr, if◌then◌else◌, Run, ok, panic, out_of_fuel,
  ◌>>=◌, Profile,
}
use lobster_os_legacy.Paging.{Paging}
use lobster_os_legacy.Process.{Process, Machine, Selectors}
use lobster_os_legacy.Process.Spawn.{Entry, Tables}
use lobster_os_legacy.Process.File.{ProcessSpawnError, Kernel, spawn_from_file}
use lobster_os_legacy.Scheduler.{Scheduler, push_task, enable}
use lobster_os_legacy.Scheduler.Inv.{ticks}

-- `SCHEDULER.lock()`: a lock that is taken is waited for without end.
unfoldable pub lock : Machine → Run Machine
lock m = if m.scheduler_locked then out_of_fuel else ok (record m { scheduler_locked = true })

-- The end of the guard's scope.
abbrev pub unlock : Scheduler × Machine → Scheduler × Machine
unlock (s, m) = (s, record m { scheduler_locked = false })

-- `unwrap` of the result of `spawn_from_file`.
abbrev pub unwrap : ProcessSpawnError ⊎ Process → Run Process
unwrap (inl e) = panic
unwrap (inr process) = ok process

-- How many timer interrupts come after each of the three steps under the lock.
pub record Arrivals : Type 0 where
  pub after_lock : ℕ
  pub after_push : ℕ
  pub after_enable : ℕ

module _ (p : Profile) (g : Selectors) (fuel : ℕ) where
  -- Interrupts are served where the flag is set.
  abbrev pub interrupted : ℕ → Scheduler × Machine → Run (Scheduler × Machine)
  interrupted n (s, m) = if m.interrupts then ticks p g fuel n (s, m) else ok (s, m)

  unfoldable pub start_scheduler :
      Arrivals → Process → Scheduler → Machine → Run (Scheduler × Machine)
  unfolding lock
  start_scheduler a process s m = do
    m1 ← lock m
    o1 ← interrupted a.after_lock (s, m1)
    pushed ← push_task p process o1.0
    o2 ← interrupted a.after_push (pushed.0, o1.1)
    o3 ← interrupted a.after_enable (enable o2.0, o2.1)
    ok (unlock o3)

  module _ (e : Entry) (x : Paging) (translate_addr : ℕ → Option ℕ) (box_addr : ℕ)
      (new_mapper : List ℕ → Tables → x.M) (level_4 : x.M → List ℕ) (tables_of : x.M → Tables) where
    -- From the bytes of the shell on.
    unfoldable pub launch :
        Arrivals → List ℕ → Scheduler → Kernel x.F → Run (Scheduler × Kernel x.F)
    launch a shell s k = do
      made ← spawn_from_file p e x translate_addr box_addr new_mapper level_4 tables_of shell k
      process ← unwrap made.0
      out ← start_scheduler a process s made.1.machine
      ok (out.0, record (made.1) { machine = out.1 })

    -- From the file system on. `load` reads the shell; it is `load_shell` with a disk, which is
    -- not read any more.
    unfoldable pub run_shell :
        {S : Type 0}
        → Run (List ℕ × S)
        → Arrivals
        → Scheduler
        → Kernel x.F
        → Run (Scheduler × Kernel x.F)
    run_shell load a s k = do loaded ← load; launch a loaded.0 s k
