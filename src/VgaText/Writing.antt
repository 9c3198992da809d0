-- ===== src/VgaText/Writing.antt =====
-- The cursor stays on the screen, and only printable characters reach it.
use lobster_os_legacy.Prelude.{
  ℕ, ◌+◌, ◌≤◌, ◌<◌, ◌≡◌, ◌≢◌, refl, ◌∙◌, ap, ◌&&◌, List, [], ◌∷◌, arith, ltb, leb, ◌==◌,
  if◌then◌else◌, ok, ◌>>=◌, gt→leb, ◌⊎◌, Bool-cases, inl, inr,
}
use lobster_os_legacy.VgaText.{
  Writer, put, write_byte, write_string, advance, shown, new_line, buffer_height, buffer_width,
}
use lobster_os_legacy.VgaText.Scroll.{new_line_scrolls, new_line_moves}

-- The cursor is on the screen, and each cell of the screen shows a printable character.
pub record IsValid (w : Writer) : Type 0 where
  pub row_in : w.row < buffer_height
  pub col_in : w.col < buffer_width
  pub printable :
      (r c : ℕ)
      → r < buffer_height
      → c < buffer_width
      → (0x20 ≤ (w.buffer r c).char) × ((w.buffer r c).char ≤ 0x7e)

abbrev Printable : Writer → Type 0
Printable w =
    (r c : ℕ)
    → r < buffer_height
    → c < buffer_width
    → (0x20 ≤ (w.buffer r c).char) × ((w.buffer r c).char ≤ 0x7e)

-- Wherever the cursor was in its row.
new_line-IsValid : (w : Writer) → w.row < buffer_height → Printable w → IsValid (new_line w)
new_line-IsValid w hr p = elim (Bool-cases (ltb (w.row + 1) buffer_height)) [
  | inl e ↦
      rw (new_line_moves w (ground arith))
        (record { row_in = ground arith; col_in = omega arith; printable = p })
  | inr e ↦
      let (row, col, cells) = new_line_scrolls w (ground (arith, hr)) in
      record {
        row_in = omega (arith, row);
        col_in = omega (arith, col);
        printable = λ r c hr' hc. ground (arith, cells r c hr' hc, p (r + 1) c);
      }
]

-- A byte that may be written as it is.
abbrev pub IsShown : ℕ → Type 0
IsShown byte = (byte ≡ 10) ⊎ ((0x20 ≤ byte) × (byte ≤ 0x7e))

shown-IsShown : (byte : ℕ) → IsShown (shown byte)
shown-IsShown byte = ground arith

-- The cell under the cursor gets the character.
abbrev written : ℕ → Writer → Writer
written byte w = record w {
  buffer = put w.buffer w.row w.col (record { char = byte; color = w.default_color });
}

write_byte_line : (w : Writer) → write_byte 10 w ≡ ok (new_line w)
unfolding write_byte
write_byte_line w = refl

write_byte_char :
    (byte : ℕ) (w : Writer)
    → byte ≢ 10
    → w.row < buffer_height
    → w.col < buffer_width
    → write_byte byte w ≡ ok (advance (written byte w))
unfolding write_byte
write_byte_char byte w ne hr hc = ground arith

written-cell :
    (byte : ℕ) (w : Writer) (r c : ℕ)
    → (written byte w).buffer r c ≡ (
        if w.row == r && w.col == c
        then record { char = byte; color = w.default_color }
        else w.buffer r c)
written-cell byte w r c = refl

put-printable :
    (byte : ℕ) (w : Writer)
    → (0x20 ≤ byte) × (byte ≤ 0x7e)
    → IsValid w
    → (r c : ℕ) → r < buffer_height
    → c < buffer_width
    → (0x20 ≤ ((written byte w).buffer r c).char) × (((written byte w).buffer r c).char ≤ 0x7e)
put-printable byte w b v r c hr hc = ground (arith, v.printable r c hr hc)

advance-IsValid :
    (byte : ℕ) (w : Writer)
    → (0x20 ≤ byte) × (byte ≤ 0x7e)
    → IsValid w
    → IsValid (advance (written byte w))
advance-IsValid byte w b v = elim (Bool-cases (leb buffer_width (w.col + 1))) [
  | inl e ↦
      rw (e, advance)
        (new_line-IsValid (record (written byte w) { col = w.col + 1 }) v.row_in
          (put-printable byte w b v))
  | inr e ↦
      rw (e, advance)
        (record { row_in = v.row_in; col_in = ground arith; printable = put-printable byte w b v })
]

write_byte-IsValid :
    (byte : ℕ) (w : Writer)
    → IsShown byte
    → IsValid w
    → (w' : Writer) × (write_byte byte w ≡ ok w') × IsValid w'
write_byte-IsValid byte w (inl e) v =
    (new_line w, rw e (write_byte_line w), new_line-IsValid w v.row_in v.printable)
write_byte-IsValid byte w (inr b) v = (
  advance (written byte w),
  write_byte_char byte w (λ e. absurd (omega arith)) v.row_in v.col_in,
  advance-IsValid byte w b v,
)

-- With the cursor on a screen that shows only printable ASCII, a string of any bytes is written
-- without an access out of range, and afterwards the cursor is on the screen and the screen shows
-- only printable ASCII.
pub write_string-IsValid :
    (bytes : List ℕ) (w : Writer)
    → IsValid w
    → (w' : Writer) × (write_string bytes w ≡ ok w') × IsValid w'
unfolding write_string
write_string-IsValid [] w v = (w, refl, v)
write_string-IsValid (byte ∷ bytes) w v =
    let (w1, e, v1) = write_byte-IsValid (shown byte) w (shown-IsShown byte) v in
    let (w2, e', v2) = write_string-IsValid bytes w1 v1 in (w2, rw (e, ◌>>=◌) e', v2)

-- A byte that is not a control character, written with the cursor on the screen and before the
-- last column, is shown under the cursor in the default colour; no other cell changes, and the
-- cursor moves one to the right.
write_byte_within :
    (byte : ℕ) (w : Writer)
    → 0x20 ≤ byte
    → w.row < buffer_height
    → w.col + 1 < buffer_width
    → (w' : Writer) × (write_byte byte w ≡ ok w')
      × (w'.row ≡ w.row)
      × (w'.col ≡ w.col + 1)
      × (w'.buffer w.row w.col ≡ record { char = byte; color = w.default_color })
      × ((r c : ℕ) → (r ≢ w.row) ⊎ (c ≢ w.col) → w'.buffer r c ≡ w.buffer r c)
write_byte_within byte w b hr hc =
    let w' = record (written byte w) { col = w.col + 1 } in
    (
      w',
      write_byte_char byte w (λ e. absurd (omega arith)) hr (omega arith)
          ∙ ap ok (rw (gt→leb buffer_width (w.col + 1) hc, advance)),
      refl,
      refl,
      ground arith,
      λ r c ne. ground arith,
    )
