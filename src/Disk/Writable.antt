-- ===== src/Disk/Writable.antt =====
-- A disk by its sectors, and what a drive that can be written promises to the driver, as laws on the
-- hardware.
use Prim.Native.Nat.{bit_and}
use lobster_os_legacy.Prelude.{
  ℕ, zero, suc, ◌+◌, ◌*◌, ◌/◌, ◌%◌, ◌^◌, ◌≤◌, ◌<◌, ◌≡◌, ◌≢◌, ◌⊎◌, inl, inr, refl, ap, ◌∙◌, List, [],
  ◌∷◌, ◌++◌, ◌==◌, if◌then◌else◌, ==_iff, ≢→==, take, drop, take-append-drop, length, length-drop,
  arith,
}
use lobster_os_legacy.Disk.{AhciPort}
use lobster_os_legacy.Disk.Layout.{register_addr, interrupt_status, command_issue}
use lobster_os_legacy.Disk.Port.{Hardware}
use lobster_os_legacy.Disk.Drive.{IsContiguous, IsWrite, Drive}

-- The bytes of each sector.
abbrev pub Image : Type 0
Image = ℕ → List ℕ

abbrev pub read_image : Image → ℕ → ℕ → List ℕ
read_image image lba zero = []
read_image image lba (suc count) = image lba ++ read_image image (lba + 1) count

abbrev pub write_image : Image → ℕ → ℕ → List ℕ → Image
write_image image lba zero bytes s = image s
write_image image lba (suc count) bytes s =
    let rest = write_image image (lba + 1) count (drop 512 bytes) s in
    if s == lba then take 512 bytes else rest

-- The sectors that a write is not about are kept.
pub write_image-outside :
    (image : Image) (lba count : ℕ) (bytes : List ℕ) (s : ℕ)
    → (s < lba) ⊎ (lba + count ≤ s)
    → write_image image lba count bytes s ≡ image s
write_image-outside image lba zero bytes s out = refl
write_image-outside image lba (suc count) bytes s out =
    let ne : s ≢ lba =
      λ e. elim out [ inl lt ↦ absurd (omega arith) | inr le ↦ absurd (omega arith) ] in
    let later : (s < lba + 1) ⊎ (lba + 1 + count ≤ s) = elim out [
      | inl lt ↦ inl (omega arith)
      | inr le ↦ inr (omega arith)
    ] in
    rw (≢→== s lba ne) (write_image-outside image (lba + 1) count (drop 512 bytes) s later)

-- Two disks that agree on a range give the same bytes there.
pub read_image-agree :
    (image image' : Image) (lba count : ℕ)
    → ((s : ℕ) → lba ≤ s → s < lba + count → image s ≡ image' s)
    → read_image image lba count ≡ read_image image' lba count
read_image-agree image image' lba zero same = refl
read_image-agree image image' lba (suc count) same =
    ap (λ l. l ++ read_image image (lba + 1) count) (same lba (omega arith) (omega arith))
    ∙ ap (λ l. image' lba ++ l)
        (read_image-agree image image' (lba + 1) count
          (λ s lo hi. same s (omega arith) (omega arith)))

no_bytes : (xs : List ℕ) → length xs ≡ 0 → [] ≡ xs
no_bytes [] e = refl
no_bytes (x ∷ xs) e = absurd (omega (arith, e))

-- What is written is what is there afterwards.
pub read_image-write_image :
    (image : Image) (lba count : ℕ) (bytes : List ℕ)
    → length bytes ≡ 512 * count
    → read_image (write_image image lba count bytes) lba count ≡ bytes
read_image-write_image image lba zero bytes e = no_bytes bytes (omega arith)
read_image-write_image image lba (suc count) bytes e =
    ap
      (λ b.
        (if b then take 512 bytes else write_image image (lba + 1) count (drop 512 bytes) lba)
        ++ read_image (write_image image lba (suc count) bytes) (lba + 1) count)
      ((==_iff lba lba).1 refl)
    ∙ ap (λ l. take 512 bytes ++ l)
        (read_image-agree (write_image image lba (suc count) bytes)
            (write_image image (lba + 1) count (drop 512 bytes)) (lba + 1) count
            (λ s lo hi.
              ap
                (λ b.
                  if b
                  then take 512 bytes
                  else write_image image (lba + 1) count (drop 512 bytes) s)
                (≢→== s lba (λ e. omega arith)))
          ∙ read_image-write_image image (lba + 1) count (drop 512 bytes)
              (omega (arith, length-drop 512 bytes)))
    ∙ take-append-drop 512 bytes

-- A drive that can be written: with each content it is a `Drive`. While it is busy with a write, the
-- content it will have is set: that of the buffer when the command was issued. Reads of registers,
-- and clearing the interrupts, leave the memory of an idle drive's buffers.
pub record WritableDrive (x : Hardware) (hba_mem number bound : ℕ) : Type 1 where
  pub drive : (image : Image) → Drive x hba_mem number bound (read_image image)
  pub Writing : (room n : ℕ) → Image → x.D → Type 0
  pub read_keeps :
      (image : Image) (room : ℕ) (d : x.D) (a buffer n : ℕ)
      → (drive image).Idle room d
      → x.load buffer n (x.read_volatile a d).1 ≡ x.load buffer n d
  pub clear_keeps :
      (image : Image) (room : ℕ) (d : x.D) (v buffer n : ℕ)
      → (drive image).Idle room d
      → x.load buffer n (x.write_volatile (register_addr hba_mem number interrupt_status) v d)
        ≡ x.load buffer n d
  pub start_write :
      (image : Image) (room : ℕ) (d : x.D) (port : AhciPort) (phys buffer lba count : ℕ)
      → (drive image).Idle room d
      → port.hba_mem ≡ hba_mem
      → port.port ≡ number
      → IsWrite port phys lba count
      → IsContiguous x buffer (512 * count) phys
      → (n : ℕ) × (n ≤ bound)
        × Writing room n
            (write_image image lba count (x.load buffer (512 * count) d))
            (x.issue port 1 d)
  pub working_write :
      (image : Image) (room : ℕ) (d : x.D) (n : ℕ)
      → Writing room (suc n) image d
      → let ci = x.read_volatile (register_addr hba_mem number command_issue) d in
        let is = x.read_volatile (register_addr hba_mem number interrupt_status) ci.1 in
        (bit_and 1 ci.0 ≢ 0) × (is.0 / 2 ^ 30 % 2 ≡ 0) × Writing room n image is.1
  pub finished_write :
      (image : Image) (room : ℕ) (d : x.D)
      → Writing room 0 image d
      → let ci = x.read_volatile (register_addr hba_mem number command_issue) d in
        let is = x.read_volatile (register_addr hba_mem number interrupt_status) ci.1 in
        (bit_and 1 ci.0 ≡ 0) × (is.0 / 2 ^ 30 % 2 ≡ 0) × (drive image).Idle room is.1
