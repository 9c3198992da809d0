-- ===== src/Disk/Serves.antt =====
-- `read_sectors` on a drive that holds an image.
use lobster_os_legacy.Prelude.{
  ◌≢◌, ≢→==, if◌then◌else◌, arith, ℕ, ◌+◌, ◌*◌, ◌^◌, ◌≤◌, ◌<◌, ◌≡◌, inr, refl, ap, ◌∙◌, some, List,
  Bool, true, Run, ok, ◌>>=◌, Profile, get_elem?, set,
}
use lobster_os_legacy.Disk.{HbaCommandHeader, HbaCommandTable, AhciPort}
use lobster_os_legacy.Disk.Port.{Hardware}
use lobster_os_legacy.Disk.Drive.{contiguous_start, IsSetUp, Drive}
use lobster_os_legacy.Disk.Transfer.{
  with_capacity, open_slot, run_command, read_result, read_mapped, read_slot, read_sectors,
}
use lobster_os_legacy.Disk.Calm.{with_memory, calm}
use lobster_os_legacy.Disk.Commands.{open_slot-Idle, run_command-After}
use lobster_os_legacy.Disk.Filled.{
  headers, tables, set_header-ok, set_table-ok, filled-IsCommand, still_set_up,
}

module _ (p : Profile) (x : Hardware) (with_byte_count : ℕ → Run ℕ) (port : AhciPort)
    (byte_count-ok : (n : ℕ) → n < 2 ^ 22 → with_byte_count n ≡ ok n) (up : IsSetUp port) where
  open x use {D, alloc, translate_addr, load}

  -- The port while a read runs.
  abbrev pub read_port : ℕ → ℕ → ℕ → AhciPort
  read_port phys lba count =
      with_memory port (headers p x with_byte_count port byte_count-ok up 0 0x25)
        (tables p x with_byte_count port byte_count-ok up 0 0x25 phys lba count)

  pub with_capacity-ok :
      (n : ℕ) (d : D)
      → 1 ≤ n
      → (alloc n 1 d).0 ≢ 0
      → with_capacity p x with_byte_count n d ≡ ok (alloc n 1 d)
  unfolding with_capacity
  with_capacity-ok n d some_bytes room =
      let positive : n ≢ 0 = λ e. absurd (omega arith) in
      rw (≢→== n 0 positive, ≢→== _ 0 room, if◌then◌else◌) refl

  -- A read, given how its parts end.
  pub read_sectors-done :
      (fuel k lba count phys : ℕ) (ports : List AhciPort) (d d1 : D) (b : Bool × D)
      → open_slot p x with_byte_count k ports d ≡ ok (port, 0, d1)
      → 1 ≤ count
      → count ≤ 8192
      → (alloc (512 * count) 1 d1).0 ≢ 0
      → translate_addr (alloc (512 * count) 1 d1).0 ≡ some phys
      → run_command p x with_byte_count fuel 0
          (read_port phys lba count)
          (alloc (512 * count) 1 d1).1
        ≡ ok b
      → read_sectors p x with_byte_count fuel k lba count ports d
        ≡ ok (
          read_result p x with_byte_count (alloc (512 * count) 1 d1).0 (512 * count) b,
          set ports k (read_port phys lba count),
          b.1,
        )
  unfolding read_sectors
  read_sectors-done fuel k lba count phys ports d d1 b opened some_sectors few room to done =
      let r = alloc (512 * count) 1 d1 in
      let hs = headers p x with_byte_count port byte_count-ok up 0 0x25 in
      let port1 = with_memory port hs port.command_table_buffers in
      ap (λ o. o >>= read_slot p x with_byte_count fuel k lba count ports) opened
      ∙ ap
          (λ o. o >>= λ port1'. with_capacity p x with_byte_count (512 * count) d1 >>= λ c.
            read_mapped p x with_byte_count fuel k lba count c.0 0 port1' ports c.1
              (translate_addr c.0))
          (set_header-ok p x with_byte_count port byte_count-ok up 0 0x25)
      ∙ ap
          (λ o. o >>= λ c.
            read_mapped p x with_byte_count fuel k lba count c.0 0 port1 ports c.1
              (translate_addr c.0))
          (with_capacity-ok (512 * count) d1 (omega arith) room)
      ∙ ap (read_mapped p x with_byte_count fuel k lba count r.0 0 port1 ports r.1) to
      ∙ ap
          (λ o. o >>= λ port2'. run_command p x with_byte_count fuel 0 port2' r.1 >>= λ b'.
            ok (read_result p x with_byte_count r.0 (512 * count) b', set ports k port2', b'.1))
          (set_table-ok p x with_byte_count port byte_count-ok up 0 0x25 phys lba count some_sectors
            few)
      ∙ ap
          (λ o. o >>= λ b'. ok (
            read_result p x with_byte_count r.0 (512 * count) b',
            set ports k (read_port phys lba count),
            b'.1,
          ))
          done

module _ (p : Profile) (x : Hardware) (with_byte_count : ℕ → Run ℕ) (port : AhciPort) (bound : ℕ)
    (image : ℕ → ℕ → List ℕ) (drive : Drive x port.hba_mem port.port bound image)
    (byte_count-ok : (n : ℕ) → n < 2 ^ 22 → with_byte_count n ≡ ok n) (up : IsSetUp port) where
  open x use {D, alloc, load}
  open drive use {Idle, Busy}

  pub read_sectors-Idle :
      (fuel k lba count room : ℕ) (ports : List AhciPort) (d : D)
      → bound + 1 < fuel
      → get_elem? ports k ≡ some port
      → 1 ≤ count
      → count ≤ 8192
      → lba < 2 ^ 48
      → Idle (count + room) d
      → (hs : List HbaCommandHeader) × (ts : List HbaCommandTable) × (d' : D) × (read_sectors p x
            with_byte_count fuel k lba count ports d
          ≡ ok (inr (image lba count), set ports k (with_memory port hs ts), d'))
        × IsSetUp (with_memory port hs ts)
        × Idle room d'
  read_sectors-Idle fuel k lba count room ports d lt at some_sectors few small idle =
      let (d1, opened, i1) =
        open_slot-Idle p x with_byte_count port (calm drive (count + room)) k ports d at idle in
      let r = alloc (512 * count) 1 d1 in
      let ((there, phys, contiguous), i2) = drive.heap count room d1 some_sectors i1 in
      let hs = headers p x with_byte_count port byte_count-ok up 0 0x25 in
      let ts = tables p x with_byte_count port byte_count-ok up 0 0x25 phys lba count in
      let is =
        filled-IsCommand p x with_byte_count port byte_count-ok up 0 0x25 phys lba count
          some_sectors small in
      let port2 = read_port p x with_byte_count port byte_count-ok up phys lba count in
      let (d', done, (idle', loaded)) =
        run_command-After p x with_byte_count port (calm drive room) true hs ts
          (λ n d. Busy room n r.0 lba count d)
          (λ d. Idle room d × (load r.0 (512 * count) d ≡ image lba count))
          (λ d n busy. drive.working room d n r.0 lba count busy)
          (λ d busy. let (c, f, i, l) = drive.finished room d r.0 lba count busy in (c, f, (i, l)))
          fuel bound r.1 lt i2
          (λ d i. drive.start room d port2 phys r.0 lba count i refl refl is contiguous) in
      (
        hs,
        ts,
        d',
        read_sectors-done p x with_byte_count port byte_count-ok up fuel k lba count phys ports d d1
              (true, d') opened some_sectors few there
              (contiguous_start x r.0 (512 * count) phys (omega arith) contiguous) done
            ∙ ap (λ l. ok (inr l, set ports k port2, d')) loaded,
        still_set_up is,
        idle',
      )
