-- ===== src/Disk/Startable.antt =====
-- What `init_device` of src/disk.rs needs of a port, as laws on the hardware.
use Prim.Native.Nat.{bit_and, bit_or}
use lobster_os_legacy.Prelude.{ℕ, suc, ◌≤◌, ◌≡◌, ◌≢◌, some, length}
use lobster_os_legacy.Disk.Layout.{
  register_addr, command_status, cl_base, cl_base_upper, fis_base, fis_base_upper,
}
use lobster_os_legacy.Disk.Port.{Hardware}

-- What a port promises to its set-up: once the start bits are cleared its engines stop after some polls,
-- at most `bound`; while they are stopped the base registers take what is written to them and keep it,
-- also when the heap is used and when the engines are started. The numbers are those of the registers
-- of the command list and of the received FIS, each with its upper half.
pub record Startable (x : Hardware) (hba_ptr i bound : ℕ) : Type 1 where
  pub Found : x.D → Type 0
  pub Stopping : ℕ → x.D → Type 0
  pub Stopped : (list list_upper fis fis_upper : ℕ) → x.D → Type 0
  pub Started : (list list_upper fis fis_upper : ℕ) → x.D → Type 0
  pub stop :
      (d : x.D)
      → Found d
      → let r = x.read_volatile (register_addr hba_ptr i command_status) d in
        (n : ℕ) × (n ≤ bound)
        × Stopping n (
            x.write_volatile
              (register_addr hba_ptr i command_status)
              (bit_and 0xFFFFFFEF (bit_and 0xFFFFFFFE r.0))
              r.1)
  pub stopping :
      (n : ℕ) (d : x.D)
      → Stopping (suc n) d
      → let r = x.read_volatile (register_addr hba_ptr i command_status) d in
        (bit_and 0x4000 r.0 ≢ 0) × Stopping n r.1
  pub stopped :
      (d : x.D)
      → Stopping 0 d
      → let r = x.read_volatile (register_addr hba_ptr i command_status) d in
        (bit_and 0x4000 r.0 ≡ 0)
        × (bit_and 0x8000 r.0 ≡ 0)
        × (l : ℕ) × (lu : ℕ) × (f : ℕ) × (fu : ℕ) × Stopped l lu f fu r.1
  pub heap :
      (size align l lu f fu : ℕ) (d : x.D)
      → Stopped l lu f fu d
      → let r = x.alloc size align d in
        Stopped l lu f fu r.1 × (phys : ℕ) × (x.translate_addr r.0 ≡ some phys)
  pub write_list :
      (v l lu f fu : ℕ) (d : x.D)
      → Stopped l lu f fu d
      → Stopped v lu f fu (x.write_volatile (register_addr hba_ptr i cl_base) v d)
  pub write_list_upper :
      (v l lu f fu : ℕ) (d : x.D)
      → Stopped l lu f fu d
      → Stopped l v f fu (x.write_volatile (register_addr hba_ptr i cl_base_upper) v d)
  pub write_fis :
      (v l lu f fu : ℕ) (d : x.D)
      → Stopped l lu f fu d
      → Stopped l lu v fu (x.write_volatile (register_addr hba_ptr i fis_base) v d)
  pub write_fis_upper :
      (v l lu f fu : ℕ) (d : x.D)
      → Stopped l lu f fu d
      → Stopped l lu f v (x.write_volatile (register_addr hba_ptr i fis_base_upper) v d)
  pub still :
      (l lu f fu : ℕ) (d : x.D)
      → Stopped l lu f fu d
      → let r = x.read_volatile (register_addr hba_ptr i command_status) d in
        (bit_and 0x8000 r.0 ≡ 0) × Stopped l lu f fu r.1
  pub start :
      (v l lu f fu : ℕ) (d : x.D)
      → Stopped l lu f fu d
      → Started l lu f fu
          (x.write_volatile (register_addr hba_ptr i command_status) (bit_or 0x101 v) d)
  pub lists : (a : ℕ) (d : x.D) → length (x.command_list_at a d) ≡ 32
