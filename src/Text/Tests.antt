-- ===== src/Text/Tests.antt =====
-- Runs of text.c, and the theorems about it at a screen of 32 by 32 pixels.
use visual_os.Base.{ℕ, ◌+◌, ◌*◌, ◌≡◌, refl, some, ◌==◌, if◌then◌else◌, arith, [], ◌∷◌}
use visual_os.Text.{Screen, text_output, text_output_char, text_output_size}
use visual_os.Text.Color.{
  ColorInterface, bytes, code, color_ansi_compare, color_from_ansi, color_from_log, log_type_error,
  color_ansi_magic_char_end,
}
use visual_os.Text.Escape.{escape_lem}

-- A font of two rows; the glyph of a character is its own bits and none.
abbrev small : Screen
small = record {
  framebuffer = record { base = 0; width = 32; height = 32; pitch = 128; bpp = 32 };
  font = record {
    charsize = 2;
    body = 0x1000;
    memory = λ address. if address == 0x1000 + 65 * 2 then 65 else 0;
  };
  pixels = λ q. 0;
  cursor_x = 0;
  cursor_y = 0;
  color_state = 0xffffffff;
}

abbrev red : ColorInterface
red = record { ansi = code 1; shell = 0xffff0000; log = log_type_error }

-- `"\e[0;31mA"`
abbrev red_text : ℕ → ℕ
red_text = bytes (27 ∷ 91 ∷ 48 ∷ 59 ∷ 51 ∷ 49 ∷ 109 ∷ 65 ∷ [])

finds_red : color_from_ansi (λ j. red_text (0 + j)) ≡ (red, some 7)
unfolding color_from_ansi color_ansi_compare
finds_red = refl

escape_lem_example :
    (text_output 12 0 red_text small
      ≡ text_output 10
          (0 + 7)
          red_text
          (text_output_char color_ansi_magic_char_end (record small { color_state = red.shell })))
    × (text_output_size 11 0 red_text 8 small
        ≡ text_output_size 10 (0 + 7) red_text 8 (record small { color_state = red.shell }))
escape_lem_example = escape_lem red_text 0 small red 7 10 8 finds_red (omega arith)

log_red : color_from_log log_type_error ≡ red
unfolding color_from_log
log_red = refl
