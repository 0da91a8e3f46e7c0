-- ===== src/Text.antt =====
-- src/kernel/shell/text.c and shell.c with framebuffer.h: text as pixels. The pixels are the words of
-- 32 bits from the framebuffer's base on.
pub mod Color
pub mod Ansi
pub mod Escape
pub mod Draw
mod Tests
use visual_os.Base.{
  ℕ, zero, suc, ◌+◌, ◌-◌, ◌*◌, ◌/◌, ◌%◌, ◌^◌, Bool, true, false, Option, none, some, bit_and, ltb,
  ◌==◌, if◌then◌else◌, u64_mod, add64, sign_extend, update, for_range,
}
use visual_os.Base.Run.{Run, ok, out_of_fuel}
use visual_os.Text.Color.{ColorInterface, color_from_ansi}

pub record Framebuffer : Type 0 where
  pub base : ℕ
  pub width : ℕ
  pub height : ℕ
  pub pitch : ℕ
  pub bpp : ℕ

-- `struct Module` with the header of a font, and the memory of its body.
pub record Font : Type 0 where
  pub charsize : ℕ
  pub body : ℕ
  pub memory : ℕ → ℕ

pub record Image : Type 0 where
  pub width : ℕ
  pub height : ℕ
  pub body : ℕ → ℕ

pub record Screen : Type 0 where
  pub framebuffer : Framebuffer
  pub font : Font
  pub pixels : ℕ → ℕ
  pub cursor_x : ℕ
  pub cursor_y : ℕ
  pub color_state : ℕ

abbrev pub module_psf1_width : ℕ
module_psf1_width = 8

abbrev pub text_color_foreground : ℕ
text_color_foreground = 0xffffffff

-- The coordinates are cut to 16 bits, and `y * width + x` is an `int`.
unfoldable pub framebuffer_putpix32 : Framebuffer → (x y pix : ℕ) → (ℕ → ℕ) → ℕ → ℕ
framebuffer_putpix32 framebuffer x y pix pixels =
    update pixels (sign_extend (y % 2 ^ 16 * framebuffer.width + x % 2 ^ 16)) pix

unfoldable pub text_set_cursor : (x y : ℕ) → Screen → Screen
text_set_cursor x y s = record s { cursor_x = x; cursor_y = y }

-- A `char` is signed: the glyphs of 128 to 255 lie before the body.
unfoldable pub glyph : Font → (chr : ℕ) → ℕ
glyph font chr =
    if ltb chr 128
    then add64 font.body (chr * font.charsize)
    else add64 font.body (u64_mod - (256 - chr) * font.charsize)

-- Whether a row of a glyph has its pixel `dx`.
abbrev pub lit : (row dx : ℕ) → Bool
lit row dx = ltb 0 (bit_and row (0b10000000 / 2 ^ dx))

unfoldable pub draw_pixel : Framebuffer → (row color xoff y dx : ℕ) → (ℕ → ℕ) → ℕ → ℕ
unfolding framebuffer_putpix32
draw_pixel framebuffer row color xoff y dx pixels =
    if lit row dx then framebuffer_putpix32 framebuffer (dx + xoff) y color pixels else pixels

unfoldable pub draw_row : Framebuffer → (row color xoff y : ℕ) → (ℕ → ℕ) → ℕ → ℕ
unfolding draw_pixel
draw_row framebuffer row color xoff y =
    for_range (draw_pixel framebuffer row color xoff y) module_psf1_width 0

unfoldable pub text_draw_char : (chr color xoff yoff : ℕ) → Screen → Screen
unfolding glyph draw_row
text_draw_char chr color xoff yoff s = record s {
  pixels =
      for_range
        (λ dy.
          draw_row s.framebuffer (s.font.memory (add64 (glyph s.font chr) dy)) color xoff
            (dy + yoff))
        s.font.charsize 0 s.pixels;
}

unfoldable pub newline : Screen → Screen
newline s = record s { cursor_x = 0; cursor_y = (s.cursor_y + s.font.charsize) % 2 ^ 32 }

unfoldable pub text_output_char_color : (chr color : ℕ) → Screen → Screen
unfolding newline text_draw_char
text_output_char_color chr color s =
    let drawn = text_draw_char chr color s.cursor_x s.cursor_y s in
    let moved = record drawn { cursor_x = (drawn.cursor_x + module_psf1_width) % 2 ^ 32 } in
    if chr == 10
    then newline s
    else if ltb moved.cursor_x s.framebuffer.width
    then moved
    else newline moved

unfoldable pub text_output_char : ℕ → Screen → Screen
unfolding text_output_char_color
text_output_char chr s = text_output_char_color chr s.color_state s

unfoldable pub text_output_newline : Screen → Screen
unfolding text_output_char_color
text_output_newline = text_output_char_color 10 text_color_foreground

-- The length of the colour code at `str + i`, and the state with its colour.
unfoldable pub text_handle_ansi_color : (str : ℕ → ℕ) → (i : ℕ) → Screen → Option ℕ × Screen
text_handle_ansi_color str i s =
    let (color, relative_index) = color_from_ansi (λ k. str (i + k)) in
    elim relative_index [
      | none ↦ (none, s)
      | some index ↦ (some index, record s { color_state = color.shell })
    ]

-- The loops of the output functions, with the rounds that are left.
unfoldable pub output_color_size : (rounds i : ℕ) → (str : ℕ → ℕ) → (color : ℕ) → Screen → Screen
output_color_size zero i str color s = s
output_color_size (suc rounds) i str color s = elim (str i == 0) [
  | true ↦ s
  | false ↦ output_color_size rounds (i + 1) str color (text_output_char_color (str i) color s)
]

unfoldable pub text_output_color_size : (str : ℕ → ℕ) → (color size : ℕ) → Screen → Screen
unfolding output_color_size
text_output_color_size str color size = output_color_size size 0 str color

unfoldable pub text_output_color :
    (fuel i : ℕ) → (str : ℕ → ℕ) → (color : ℕ) → Screen → Run Screen (Unit {0})
text_output_color zero i str color s = out_of_fuel
text_output_color (suc fuel) i str color s = elim (str i == 0) [
  | true ↦ ok tt s
  | false ↦ text_output_color fuel (i + 1) str color (text_output_char_color (str i) color s)
]

unfoldable pub text_output : (fuel i : ℕ) → (str : ℕ → ℕ) → Screen → Run Screen (Unit {0})
text_output zero i str s = out_of_fuel
text_output (suc fuel) i str s = elim (str i == 0) [
  | true ↦ ok tt s
  | false ↦
      let (relative_index, s') = text_handle_ansi_color str i s in
      elim relative_index [
        | some index ↦ text_output fuel (i + (index - 1)) str s'
        | none ↦ text_output fuel (i + 1) str (text_output_char (str i) s')
      ]
]

-- The loop's own step comes after that over the code.
unfoldable pub text_output_size :
    (fuel i : ℕ) → (str : ℕ → ℕ) → (size : ℕ) → Screen → Run Screen (Unit {0})
text_output_size zero i str size s = out_of_fuel
text_output_size (suc fuel) i str size s = elim (ltb i size) [
  | false ↦ ok tt s
  | true ↦
      let (relative_index, s') = text_handle_ansi_color str i s in
      elim relative_index [
        | some index ↦ text_output_size fuel (i + (index - 1) + 1) str size s'
        | none ↦ text_output_size fuel (i + 1) str size (text_output_char (str i) s')
      ]
]

-- `shell_draw_tga` reads the row `dy` of an image at `height * dy`.
unfoldable pub shell_draw_tga : Image → (xoff yoff : ℕ) → Screen → Screen
unfolding framebuffer_putpix32
shell_draw_tga image xoff yoff s = record s {
  pixels =
      for_range
        (λ dy.
          for_range
            (λ dx.
              framebuffer_putpix32 s.framebuffer (dx + xoff) (dy + yoff)
                (image.body (dx + image.height * dy)))
            image.width 0)
        image.height 0 s.pixels;
}

unfoldable pub shell_init : Image → Screen → Screen
unfolding shell_draw_tga text_set_cursor
shell_init image s =
    text_set_cursor 0 image.height
      (shell_draw_tga image ((s.framebuffer.width / 2 + 2 ^ 32 - image.width / 2) % 2 ^ 32) 0 s)
