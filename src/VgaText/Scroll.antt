-- ===== src/VgaText/Scroll.antt =====
-- The cell-by-cell loops of `new_line`, against what they do to the screen as a whole.
use lobster_os_legacy.Prelude.{
  ℕ, zero, suc, ◌+◌, ◌-◌, ◌<◌, ◌≡◌, refl, ◌∙◌, ap, ◌&&◌, arith, ltb, leb, gt→leb, ◌==◌,
  if◌then◌else◌,
}
use lobster_os_legacy.VgaText.{
  ScreenChar, Buffer, put, Writer, copy_row, scroll_up, fill_row, blank, clear_row, clear_rows,
  clear_screen, new_line, buffer_height, buffer_width,
}

copy_row_lem :
    (n col row : ℕ) (b : Buffer) (r c : ℕ)
    → 0 < row
    → copy_row n col row b r c
      ≡ (if r + 1 == row && (leb col c && ltb c (col + n)) then b row c else b r c)
unfolding copy_row
copy_row_lem zero col row b r c h = ground arith
copy_row_lem (suc n) col row b r c h =
    ground (arith, copy_row_lem n (col + 1) row (put b (row - 1) col (b row col)) r c h)

fill_row_lem :
    (n col row : ℕ) (v : ScreenChar) (b : Buffer) (r c : ℕ)
    → fill_row n col row v b r c ≡ (if r == row && (leb col c && ltb c (col + n)) then v else b r c)
unfolding fill_row
fill_row_lem zero col row v b r c = ground arith
fill_row_lem (suc n) col row v b r c =
    ground (arith, fill_row_lem n (col + 1) row v (put b row col v) r c)

copy_whole_row :
    (row : ℕ) (b : Buffer) (r c : ℕ)
    → 0 < row
    → c < buffer_width
    → copy_row buffer_width 0 row b r c ≡ (if r + 1 == row then b (r + 1) c else b r c)
copy_whole_row row b r c h l = ground (arith, copy_row_lem buffer_width 0 row b r c h)

scroll_up_lem :
    (n row : ℕ) (b : Buffer) (r c : ℕ)
    → 0 < row
    → c < buffer_width
    → scroll_up n row b r c
      ≡ (if leb row (r + 1) && ltb (r + 1) (row + n) then b (r + 1) c else b r c)
unfolding scroll_up
scroll_up_lem zero row b r c h l = ground arith
scroll_up_lem (suc n) row b r c h l =
    let b' = copy_row buffer_width 0 row b in
    after b' (copy_whole_row row b r c h l) (copy_whole_row row b (r + 1) c h l)
      (scroll_up_lem n (row + 1) b' r c (omega arith) l)
  where
    after :
        (b' : Buffer)
        → b' r c ≡ (if r + 1 == row then b (r + 1) c else b r c)
        → b' (r + 1) c ≡ (if r + 1 + 1 == row then b (r + 1 + 1) c else b (r + 1) c)
        → scroll_up n (row + 1) b' r c
          ≡ (if leb (row + 1) (r + 1) && ltb (r + 1) (row + 1 + n) then b' (r + 1) c else b' r c)
        → scroll_up n (row + 1) b' r c
          ≡ (if leb row (r + 1) && ltb (r + 1) (row + suc n) then b (r + 1) c else b r c)
    after b' e e' ih = ground arith

abbrev scrolled : Writer → Writer
scrolled w = record w {
  row = buffer_height - 1;
  col = 0;
  buffer =
      fill_row buffer_width 0 (buffer_height - 1) (blank w)
        (scroll_up (buffer_height - 1) 1 w.buffer);
}

new_line-full : (w : Writer) → w.row + 1 ≡ buffer_height → new_line w ≡ scrolled w
unfolding new_line clear_row
new_line-full w h = rw (h, new_line)

-- On the last row a new line moves the screen up by one row: rows 0 to 23 show what was one row
-- below, row 24 is blank in the default colour, and the cursor stands at the start of row 24.
pub new_line_scrolls :
    (w : Writer)
    → w.row + 1 ≡ buffer_height
    → ((new_line w).row ≡ buffer_height - 1)
      × ((new_line w).col ≡ 0)
      × ((r c : ℕ)
          → r < buffer_height
          → c < buffer_width
          → (new_line w).buffer r c
            ≡ (if r == buffer_height - 1 then blank w else w.buffer (r + 1) c))
new_line_scrolls w h =
    let same = new_line-full w h in
    (
      ap (λ v. v.row) same,
      ap (λ v. v.col) same,
      λ r c hr hc. ap (λ v. v.buffer r c) same ∙ cell r c hr hc,
    )
  where
    cell :
        (r c : ℕ)
        → r < buffer_height
        → c < buffer_width
        → (scrolled w).buffer r c ≡ (if r == buffer_height - 1 then blank w else w.buffer (r + 1) c)
    cell r c hr hc = ground (
      arith,
      scroll_up_lem (buffer_height - 1) 1 w.buffer r c (omega arith) hc,
      fill_row_lem buffer_width 0 (buffer_height - 1) (blank w)
          (scroll_up (buffer_height - 1) 1 w.buffer) r c,
    )

-- A new line that is not the last only moves the cursor.
pub new_line_moves :
    (w : Writer) → w.row + 1 < buffer_height → new_line w ≡ record w { row = w.row + 1; col = 0 }
unfolding new_line
new_line_moves w h = rw (gt→leb buffer_height (w.row + 1) h, new_line)

clear_row_lem :
    (row : ℕ) (w : Writer) (r c : ℕ)
    → c < buffer_width
    → (clear_row row w).buffer r c ≡ (if r == row then blank w else w.buffer r c)
unfolding clear_row
clear_row_lem row w r c h = ground (arith, fill_row_lem buffer_width 0 row (blank w) w.buffer r c)

clear_row-other :
    (row : ℕ) (w : Writer)
    → ((clear_row row w).default_color ≡ w.default_color)
      × ((clear_row row w).row ≡ w.row)
      × ((clear_row row w).col ≡ w.col)
unfolding clear_row
clear_row-other row w = (refl, refl, refl)

clear_rows_lem :
    (n row : ℕ) (w : Writer) (r c : ℕ)
    → c < buffer_width
    → ((clear_rows n row w).buffer r c
        ≡ (if leb row r && ltb r (row + n) then blank w else w.buffer r c))
      × ((clear_rows n row w).default_color ≡ w.default_color)
      × ((clear_rows n row w).row ≡ w.row)
      × ((clear_rows n row w).col ≡ w.col)
unfolding clear_rows
clear_rows_lem zero row w r c h = ground arith
clear_rows_lem (suc n) row w r c h = ground (
  arith,
  clear_rows_lem n (row + 1) (clear_row row w) r c h,
  clear_row_lem row w r c h,
  clear_row-other row w,
)

-- `clear_screen` blanks every cell of the screen in the default colour and leaves the cursor.
pub clear_screen_lem :
    (w : Writer) (r c : ℕ)
    → r < buffer_height
    → c < buffer_width
    → ((clear_screen w).buffer r c ≡ blank w)
      × ((clear_screen w).row ≡ w.row)
      × ((clear_screen w).col ≡ w.col)
unfolding clear_screen
clear_screen_lem w r c hr hc = ground (arith, clear_rows_lem buffer_height 0 w r c hc)
