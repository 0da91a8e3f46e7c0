-- ===== src/Text/Draw.antt =====
-- Which pixels `text_draw_char` writes.
use visual_os.Base.{
  ℕ, ◌+◌, ◌-◌, ◌*◌, ◌/◌, ◌^◌, ◌<◌, ◌≤◌, Bool, ltb, leb, ◌&&◌, if◌then◌else◌, add64,
}
use visual_os.Text.{Framebuffer, Screen, glyph, lit, draw_row}

module _ (fb : Framebuffer) (color xoff y : ℕ) (x_fits : xoff + 8 ≤ 2 ^ 16) (y_fits : y < 2 ^ 16)
    (fits : xoff + 8 ≤ fb.width) (int_fits : (y + 1) * fb.width ≤ 2 ^ 31) where
  abbrev base : ℕ
  base = y * fb.width + xoff

  module _ (row : ℕ) where
    abbrev row_result : (rounds i : ℕ) → (ℕ → ℕ) → ℕ → ℕ
    row_result rounds i pixels q =
        if leb (base + i) q && (ltb q (base + i + rounds) && lit row (q - base))
        then color
        else pixels q

module _ (s : Screen) (chr color xoff yoff px py : ℕ) (fits : xoff + 8 ≤ s.framebuffer.width)
    (x_fits : xoff + 8 ≤ 2 ^ 16) (y_fits : yoff + s.font.charsize ≤ 2 ^ 16)
    (inside : px < s.framebuffer.width)
    (int_fits : (yoff + s.font.charsize) * s.framebuffer.width ≤ 2 ^ 31) where
  abbrev body : ℕ → (ℕ → ℕ) → ℕ → ℕ
  body dy =
      draw_row s.framebuffer (s.font.memory (add64 (glyph s.font chr) dy)) color xoff (dy + yoff)

  -- The glyph has its pixel `dx` in the row `dy`.
  abbrev glyph_bit : (dx dy : ℕ) → Bool
  glyph_bit dx dy = lit (s.font.memory (add64 (glyph s.font chr) dy)) dx

  abbrev columns : Bool
  columns = leb xoff px && ltb px (xoff + 8)

  abbrev at_pixel : ℕ
  at_pixel = py * s.framebuffer.width + px

  -- The word of the pixel in column `px` and row `py` of the screen, whose rows have `pitch` bytes.
  abbrev pub screen_word : ℕ
  screen_word = (py * s.framebuffer.pitch + px * 4) / 4
