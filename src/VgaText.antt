-- ===== src/VgaText.antt =====
-- The text-mode screen of src/display/vga_text.rs. A buffer is read and written by row and column;
-- the loops of `new_line` and `clear_row` stay inside it by their bounds, and `write_byte` checks
-- its indices, as the array accesses of the source do.
pub mod Scroll
pub mod Writing
mod Tests
use Prim.Native.Nat.{bit_or}
use lobster_os_legacy.Prelude.{
  ℕ, zero, suc, ◌+◌, ◌-◌, ◌*◌, ◌%◌, Bool, true, false, ◌&&◌, ◌||◌, List, [], ◌∷◌, ltb, leb, ◌==◌,
  if◌then◌else◌, Run, ok, panic, ◌>>=◌,
}

abbrev pub buffer_width : ℕ
buffer_width = 80

abbrev pub buffer_height : ℕ
buffer_height = 25

pub data Color : Type 0 where
  black blue green cyan red magenta brown light_gray : Color
  dark_gray light_blue light_green light_cyan light_red pink yellow white : Color

abbrev pub color_code : Color → ℕ
color_code black = 0
color_code blue = 1
color_code green = 2
color_code cyan = 3
color_code red = 4
color_code magenta = 5
color_code brown = 6
color_code light_gray = 7
color_code dark_gray = 8
color_code light_blue = 9
color_code light_green = 10
color_code light_cyan = 11
color_code light_red = 12
color_code pink = 13
color_code yellow = 14
color_code white = 15

abbrev pub bool_code : Bool → ℕ
bool_code true = 1
bool_code false = 0

-- `ColorCode::new`; the shifts are within a `u8`.
unfoldable pub new_color_code : Color → Color → Bool → ℕ
new_color_code foreground background blink =
    bit_or (bit_or (color_code background * 16 % 256) (color_code foreground))
      (bool_code blink * 128)

-- `color` is the number of a `ColorCode`.
pub record ScreenChar : Type 0 where
  pub char : ℕ
  pub color : ℕ

abbrev pub Buffer : Type 0
Buffer = ℕ → ℕ → ScreenChar

abbrev pub put : Buffer → ℕ → ℕ → ScreenChar → Buffer
put b r c v r' c' = if r == r' && c == c' then v else b r' c'

pub record Writer : Type 0 where
  pub row : ℕ
  pub col : ℕ
  pub default_color : ℕ
  pub buffer : Buffer

unfoldable pub new : Buffer → Writer
unfolding new_color_code
new b = record { row = 0; col = 0; default_color = new_color_code white black false; buffer = b }

-- `for col in col..col + n`: the cells of a row move up by one row.
unfoldable pub copy_row : ℕ → ℕ → ℕ → Buffer → Buffer
copy_row zero col row b = b
copy_row (suc n) col row b = copy_row n (col + 1) row (put b (row - 1) col (b row col))

-- `for row in row..row + n`
unfoldable pub scroll_up : ℕ → ℕ → Buffer → Buffer
scroll_up zero row b = b
scroll_up (suc n) row b = scroll_up n (row + 1) (copy_row buffer_width 0 row b)

unfoldable pub fill_row : ℕ → ℕ → ℕ → ScreenChar → Buffer → Buffer
fill_row zero col row v b = b
fill_row (suc n) col row v b = fill_row n (col + 1) row v (put b row col v)

abbrev pub blank : Writer → ScreenChar
blank w = record { char = b' '; color = w.default_color }

unfoldable pub clear_row : ℕ → Writer → Writer
clear_row row w = record w { buffer = fill_row buffer_width 0 row (blank w) w.buffer }

-- `for row in row..row + n`
unfoldable pub clear_rows : ℕ → ℕ → Writer → Writer
clear_rows zero row w = w
clear_rows (suc n) row w = clear_rows n (row + 1) (clear_row row w)

unfoldable pub clear_screen : Writer → Writer
clear_screen w = clear_rows buffer_height 0 w

unfoldable pub new_line : Writer → Writer
new_line w =
    let w' = record w { row = w.row + 1; col = 0 } in
    if leb buffer_height w'.row
    then clear_row (buffer_height - 1)
        (record w' { row = buffer_height - 1; buffer = scroll_up (buffer_height - 1) 1 w'.buffer })
    else w'

-- A cell out of range is a panic.
abbrev pub write_cell : Writer → ScreenChar → Run Writer
write_cell w v =
    if ltb w.row buffer_height && ltb w.col buffer_width
    then ok (record w { buffer = put w.buffer w.row w.col v })
    else panic

abbrev pub advance : Writer → Writer
advance w =
    let w' = record w { col = w.col + 1 } in if leb buffer_width w'.col then new_line w' else w'

unfoldable pub write_byte : ℕ → Writer → Run Writer
write_byte byte w =
    if byte == 10
    then ok (new_line w)
    else write_cell w (record { char = byte; color = w.default_color }) >>= λ w'. ok (advance w')

-- Bytes that are no printable ASCII become a question mark.
abbrev pub shown : ℕ → ℕ
shown byte = if (leb 0x20 byte && leb byte 0x7e) || byte == 10 then byte else b'?'

unfoldable pub write_string : List ℕ → Writer → Run Writer
write_string [] w = ok w
write_string (byte ∷ bytes) w = write_byte (shown byte) w >>= λ w'. write_string bytes w'

unfoldable pub set_color : ℕ → Writer → Writer
set_color c w = record w { default_color = c }
