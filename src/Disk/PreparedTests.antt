-- ===== src/Disk/PreparedTests.antt =====
-- A port whose engines stop two polls after they are told to. The state is the polls to go and the four
-- base registers.
use lobster_os_legacy.Prelude.{ℕ, zero, suc, ◌≡◌, refl, some, ◌==◌, if◌then◌else◌, replicate, arith}
use lobster_os_legacy.Disk.Layout.{register_addr}
use lobster_os_legacy.Disk.Port.{Hardware}
use lobster_os_legacy.Disk.Sample.{zero_header}
use lobster_os_legacy.Disk.Startable.{Startable}

record Registers : Type 0 where
  polls : ℕ
  list : ℕ
  list_upper : ℕ
  fis : ℕ
  fis_upper : ℕ

abbrev running : ℕ → ℕ
running zero = 0
running (suc n) = 0x4000

abbrev fewer : ℕ → ℕ
fewer zero = 0
fewer (suc n) = n

abbrev written : ℕ → ℕ → Registers → Registers
written a v d =
    if a == 0x100
    then record d { list = v }
    else if a == 0x104
    then record d { list_upper = v }
    else if a == 0x108
    then record d { fis = v }
    else if a == 0x10C
    then record d { fis_upper = v }
    else d

abbrev hardware : Hardware
hardware = record {
  D = Registers;
  read_volatile = λ a d. (running d.polls, record d { polls = fewer d.polls });
  write_volatile = written;
  issue = λ port v d. d;
  alloc = λ size align d. (0x5000, d);
  translate_addr = λ a. some a;
  command_list_at = λ a d. replicate 32 zero_header;
  load = λ a n d. replicate n 0;
}

abbrev stopped : (list list_upper fis fis_upper : ℕ) → Registers
stopped l lu f fu = record { polls = 0; list = l; list_upper = lu; fis = f; fis_upper = fu }

startable : Startable hardware 0 0 2
unfolding register_addr
startable = record {
  Found = λ d. d.polls ≡ 2;
  Stopping = λ n d. d.polls ≡ n;
  Stopped = λ l lu f fu d. d ≡ stopped l lu f fu;
  Started = λ l lu f fu d. d ≡ stopped l lu f fu;
  stop = λ d found. (1, omega arith, (rw found refl));
  stopping = λ n d s. ((rw s (λ e. absurd (omega arith))), (rw s refl));
  stopped =
      λ d s. ((rw s refl), (rw s refl), d.list, d.list_upper, d.fis, d.fis_upper, (rw s refl));
  heap = λ size align l lu f fu d s. (s, 0x5000, refl);
  write_list = λ v l lu f fu d s. (rw s refl);
  write_list_upper = λ v l lu f fu d s. (rw s refl);
  write_fis = λ v l lu f fu d s. (rw s refl);
  write_fis_upper = λ v l lu f fu d s. (rw s refl);
  still = λ l lu f fu d s. ((rw s refl), (rw s refl));
  start = λ v l lu f fu d s. s;
  lists = λ a d. refl;
}

abbrev found : Registers
found = record { polls = 2; list = 7; list_upper = 7; fis = 7; fis_upper = 7 }
