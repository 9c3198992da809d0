-- ===== src/VgaText/Tests.antt =====
-- The screen at small inputs.
use lobster_os_legacy.Prelude.{
  ℕ, ◌+◌, ◌<◌, ◌≡◌, refl, [], ◌∷◌, true, arith, ok, ◌==◌, if◌then◌else◌,
}
use lobster_os_legacy.VgaText.{
  Writer, Buffer, new_color_code, yellow, blue, new_line, write_string, blank, buffer_height,
  buffer_width,
}
use lobster_os_legacy.VgaText.Scroll.{new_line_scrolls}
use lobster_os_legacy.VgaText.Writing.{IsValid, write_string-IsValid}

abbrev dotted : Buffer
dotted r c = record { char = b'.'; color = r }

abbrev writer : Writer
writer = record { row = 24; col = 78; default_color = 15; buffer = dotted }

color : new_color_code yellow blue true ≡ 0x9e
unfolding new_color_code
color = refl

writer-IsValid : IsValid writer
writer-IsValid = record {
  row_in = omega arith;
  col_in = omega arith;
  printable = λ r c hr hc. omega arith;
}

new_line_scrolls_example :
    ((new_line writer).row ≡ 24)
    × ((new_line writer).col ≡ 0)
    × ((r c : ℕ)
        → r < buffer_height
        → c < buffer_width
        → (new_line writer).buffer r c ≡ (if r == 24 then blank writer else dotted (r + 1) c))
new_line_scrolls_example = new_line_scrolls writer refl

write_string-IsValid_example :
    (w' : Writer) × (write_string (b'o' ∷ b'k' ∷ 200 ∷ 10 ∷ []) writer ≡ ok w') × IsValid w'
write_string-IsValid_example =
    write_string-IsValid (b'o' ∷ b'k' ∷ 200 ∷ 10 ∷ []) writer writer-IsValid
