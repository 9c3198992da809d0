-- ===== src/Disk/Writes.antt =====
-- `write_sectors` on a drive that can be written, and what `read_sectors` gives afterwards.
use mathlib.Core.Path.{subst}
use lobster_os_legacy.Prelude.{
  ℕ, ◌+◌, ◌*◌, ◌^◌, ◌≤◌, ◌<◌, ◌≡◌, inr, refl, ap, ◌∙◌, none, some, List, Bool, true, Run, ok, ◌>>=◌,
  Profile, get_elem?, set, arith,
}
use lobster_os_legacy.Disk.{HbaCommandHeader, HbaCommandTable, AhciPort}
use lobster_os_legacy.Disk.Port.{Hardware}
use lobster_os_legacy.Disk.Drive.{IsContiguous, contiguous_start, IsSetUp}
use lobster_os_legacy.Disk.Transfer.{
  open_slot, run_command, write_result, write_mapped, write_slot, write_sectors, read_sectors,
}
use lobster_os_legacy.Disk.Calm.{with_memory, Calm}
use lobster_os_legacy.Disk.Commands.{open_slot-Idle, run_command-After}
use lobster_os_legacy.Disk.Filled.{
  headers, tables, set_header-ok, set_table-ok, filled-IsCommand, still_set_up,
}
use lobster_os_legacy.Disk.Writable.{Image, write_image, WritableDrive}

module _ (p : Profile) (x : Hardware) (with_byte_count : ℕ → Run ℕ) (port : AhciPort)
    (byte_count-ok : (n : ℕ) → n < 2 ^ 22 → with_byte_count n ≡ ok n) (up : IsSetUp port) where
  open x use {D, translate_addr}

  -- The port while a write runs.
  abbrev pub write_port : ℕ → ℕ → ℕ → AhciPort
  write_port phys lba count =
      with_memory port (headers p x with_byte_count port byte_count-ok up 1 0x35)
        (tables p x with_byte_count port byte_count-ok up 1 0x35 phys lba count)

  -- A write, given how its parts end.
  pub write_sectors-done :
      (fuel k lba count buffer phys : ℕ) (ports : List AhciPort) (d d1 : D) (b : Bool × D)
      → open_slot p x with_byte_count k ports d ≡ ok (port, 0, d1)
      → 1 ≤ count
      → count ≤ 8192
      → translate_addr buffer ≡ some phys
      → run_command p x with_byte_count fuel 0 (write_port phys lba count) d1 ≡ ok b
      → write_sectors p x with_byte_count fuel k lba count buffer ports d
        ≡ ok (write_result p x with_byte_count b.0, set ports k (write_port phys lba count), b.1)
  unfolding write_sectors
  write_sectors-done fuel k lba count buffer phys ports d d1 b opened some_sectors few to done =
      let hs = headers p x with_byte_count port byte_count-ok up 1 0x35 in
      ap (λ o. o >>= write_slot p x with_byte_count fuel k lba count buffer ports) opened
      ∙ ap
          (λ o. o >>= λ port1.
            write_mapped p x with_byte_count fuel k lba count 0 port1 ports d1
              (translate_addr buffer))
          (set_header-ok p x with_byte_count port byte_count-ok up 1 0x35)
      ∙ ap
          (write_mapped p x with_byte_count fuel k lba count 0
            (with_memory port hs port.command_table_buffers) ports d1)
          to
      ∙ ap
          (λ o. o >>= λ port2'. run_command p x with_byte_count fuel 0 port2' d1 >>= λ b'.
            ok (write_result p x with_byte_count b'.0, set ports k port2', b'.1))
          (set_table-ok p x with_byte_count port byte_count-ok up 1 0x35 phys lba count some_sectors
            few)
      ∙ ap
          (λ o. o >>= λ b'.
            ok (
              write_result p x with_byte_count b'.0,
              set ports k (write_port phys lba count),
              b'.1,
            ))
          done

module _ (p : Profile) (x : Hardware) (with_byte_count : ℕ → Run ℕ) (port : AhciPort) (bound : ℕ)
    (writable : WritableDrive x port.hba_mem port.port bound)
    (byte_count-ok : (n : ℕ) → n < 2 ^ 22 → with_byte_count n ≡ ok n) (up : IsSetUp port) where
  open x use {D, issue, load}
  open writable use {Writing, drive}

  -- The drive is idle, and the buffer holds some bytes.
  abbrev holding : Image → ℕ → ℕ → ℕ → List ℕ → Calm x port.hba_mem port.port
  holding image room buffer n bytes = record {
    Idle = λ d. (drive image).Idle room d × (load buffer n d ≡ bytes);
    clear = λ d i.
        ((drive image).clear room d i.0, writable.clear_keeps image room d _ buffer n i.0 ∙ i.1);
    no_active = λ d i.
        let (e, j) = (drive image).no_active room d i.0 in
        (e, (j, writable.read_keeps image room d _ buffer n i.0 ∙ i.1));
    no_issued = λ d i.
        let (e, j) = (drive image).no_issued room d i.0 in
        (e, (j, writable.read_keeps image room d _ buffer n i.0 ∙ i.1));
    slots = λ d i.
        let (e, j) = (drive image).slots room d i.0 in
        (e, (j, writable.read_keeps image room d _ buffer n i.0 ∙ i.1));
    ready = λ d i.
        let (e, j) = (drive image).ready room d i.0 in
        (e, (j, writable.read_keeps image room d _ buffer n i.0 ∙ i.1));
  }

  -- On an idle drive that keeps the laws of `WritableDrive`, a write of 1 to 8192 sectors below 2^48
  -- at its port, which is set up, succeeds: it does not panic, and it ends if the fuel is above the
  -- drive's bound on polls by two. Afterwards the drive is idle, it holds the buffer's bytes in the
  -- sectors written and its content of before in the others, and the port is still set up. The byte
  -- count's bit field keeps numbers below 2^22, and the buffer is contiguous in physical memory.
  pub write_sectors-Idle :
      (fuel k lba count buffer phys room : ℕ) (ports : List AhciPort) (image : Image) (d : D)
      → bound + 1 < fuel
      → get_elem? ports k ≡ some port
      → 1 ≤ count
      → count ≤ 8192
      → lba < 2 ^ 48
      → IsContiguous x buffer (512 * count) phys
      → (drive image).Idle room d
      → (hs : List HbaCommandHeader) × (ts : List HbaCommandTable) × (d' : D) × (write_sectors p x
            with_byte_count fuel k lba count buffer ports d
          ≡ ok (none, set ports k (with_memory port hs ts), d'))
        × IsSetUp (with_memory port hs ts)
        × (drive (write_image image lba count (load buffer (512 * count) d))).Idle room d'
  write_sectors-Idle fuel k lba count buffer phys room ports image d lt at some_sectors few small
        contiguous idle =
      let to = contiguous_start x buffer (512 * count) phys (omega arith) contiguous in
      let bytes = load buffer (512 * count) d in
      let held = holding image room buffer (512 * count) bytes in
      let (d1, opened, i1) =
        open_slot-Idle p x with_byte_count port held k ports d at (idle, refl) in
      let hs = headers p x with_byte_count port byte_count-ok up 1 0x35 in
      let ts = tables p x with_byte_count port byte_count-ok up 1 0x35 phys lba count in
      let is =
        filled-IsCommand p x with_byte_count port byte_count-ok up 1 0x35 phys lba count
          some_sectors small in
      let port2 = write_port p x with_byte_count port byte_count-ok up phys lba count in
      let after = write_image image lba count bytes in
      let (d', done, idle') =
        run_command-After p x with_byte_count port held true hs ts (λ n d. Writing room n after d)
          (λ d. (drive after).Idle room d) (λ d n busy. writable.working_write after room d n busy)
          (λ d busy. writable.finished_write after room d busy) fuel bound d1 lt i1
          (λ d i.
            subst
              (λ b.
                (n : ℕ) × (n ≤ bound)
                × Writing room n (write_image image lba count b) (issue port2 1 d))
              i.1
              (writable.start_write image room d port2 phys buffer lba count i.0 refl refl is
                contiguous)) in
      (
        hs,
        ts,
        d',
        write_sectors-done p x with_byte_count port byte_count-ok up fuel k lba count buffer phys
            ports d d1 (true, d') opened some_sectors few to done,
        still_set_up is,
        idle',
      )

  -- A read of some sectors ends with some bytes.
  abbrev pub Reads : (fuel k lba count : ℕ) → List AhciPort → D → List ℕ → Type 0
  Reads fuel k lba count ports d bytes =
      (ports' : List AhciPort) × (d' : D) × (read_sectors p x with_byte_count fuel k lba count ports
          d
        ≡ ok (inr bytes, ports', d'))
