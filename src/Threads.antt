-- ===== src/Threads.antt =====
-- src/threading/thread.rs: a thread of the kernel. Nothing in the kernel makes one yet.
use lobster_os_legacy.Prelude.{ℕ, ◌*◌, List, replicate}

abbrev pub stack_size : ℕ
stack_size = 1024 * 16

pub data State : Type 0 where
  ready : State

-- `C` is what the boxed code is.
pub record Thread (C : Type 0) : Type 0 where
  pub code : C
  pub stack : List ℕ
  pub state : State

abbrev pub new : {C : Type 0} → C → Thread C
new code = record { code = code; stack = replicate stack_size 0; state = State.ready }

-- `run` has an empty body.
abbrev pub run : {C : Type 0} → Thread C → Thread C
run t = t
