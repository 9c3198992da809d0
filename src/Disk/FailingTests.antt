-- ===== src/Disk/FailingTests.antt =====
-- A controller whose drive fails every command after two polls. The state is the polls to go.
use lobster_os_legacy.Prelude.{
  ℕ, zero, suc, ◌^◌, ◌≡◌, inl, refl, Option, none, some, [], ◌∷◌, ◌==◌, if◌then◌else◌, set, ok,
  debug, arith,
}
use lobster_os_legacy.Disk.{AhciPort, task_file_error}
use lobster_os_legacy.Disk.Layout.{register_addr}
use lobster_os_legacy.Disk.Port.{Hardware}
use lobster_os_legacy.Disk.Sample.{port, set_up}
use lobster_os_legacy.Disk.Transfer.{read_sectors, write_sectors}
use lobster_os_legacy.Disk.Failing.{FailingDrive, transfers-TaskFileError}

abbrev polled : Option ℕ → ℕ × Option ℕ
polled none = (0, none)
polled (some zero) = (2 ^ 30, some zero)
polled (some (suc n)) = (0, some n)

abbrev busy : Option ℕ → ℕ
busy none = 0
busy (some n) = 1

abbrev broken : Hardware
broken = record {
  D = Option ℕ;
  read_volatile = λ a d.
      if a == 0x110
      then polled d
      else (if a == 0x138 then busy d else if a == 0 then 0x1F00 else 0, d);
  write_volatile = λ a v d. d;
  issue = λ port v d. some 2;
  alloc = λ size align d. (0x5000, d);
  translate_addr = λ a. some a;
  command_list_at = λ a d. [];
  load = λ a n d. [];
}

drive : FailingDrive broken 0 0 2
unfolding register_addr
drive = record {
  calm = record {
    Idle = λ d. d ≡ none;
    clear = λ d i. i;
    no_active = λ d i. (refl, i);
    no_issued = λ d i. ((rw i refl), i);
    slots = λ d i. (refl, i);
    ready = λ d i. (refl, i);
  };
  heap = λ size align d i. i;
  Doomed = λ n d. d ≡ some n;
  start = λ d port direction command phys lba count i e f is. (2, omega arith, refl);
  working = λ d n b. (rw b (λ z. absurd (omega arith)), (rw b refl), (rw b refl));
  failed = λ d b. (rw b (λ z. absurd (omega arith)), (rw b refl));
}

transfers-TaskFileError_example :
    ((port' : AhciPort) × (d' : Option ℕ) × (read_sectors debug broken ok 4 0 300 2 (port ∷ []) none
        ≡ ok (inl task_file_error, set (port ∷ []) 0 port', d')))
    × ((port' : AhciPort) × (d' : Option ℕ) × (write_sectors debug broken ok 4 0 300 2 0x8000
            (port ∷ [])
            none
          ≡ ok (some task_file_error, set (port ∷ []) 0 port', d')))
unfolding drive
transfers-TaskFileError_example =
    transfers-TaskFileError debug broken ok port 2 drive (λ n h. refl) set_up 4 0 300 2 0x8000
      (port ∷ []) none (omega arith) refl (omega arith) (omega arith) (omega arith) (λ a. (a, refl))
      (λ d' i e. absurd (omega arith)) refl
