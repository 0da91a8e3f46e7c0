-- ===== src/Text/Color.antt =====
-- src/kernel/shell/color.c and color.h: the colours that a text can ask for.
use visual_os.Base.{
  ℕ, zero, suc, ◌+◌, Bool, true, false, Option, none, some, List, [], ◌∷◌, ◌==◌, ◌&&◌,
  if◌then◌else◌,
}

-- A `char` is a number below 256, and a string the bytes from its address on.
pub record ColorInterface : Type 0 where
  pub ansi : ℕ → ℕ
  pub shell : ℕ
  pub log : ℕ

abbrev pub color_ansi_max_size : ℕ
color_ansi_max_size = 8

abbrev pub color_ansi_magic_char_start : ℕ
color_ansi_magic_char_start = 27

abbrev pub color_ansi_magic_char_end : ℕ
color_ansi_magic_char_end = 109

abbrev pub log_type_normal : ℕ
log_type_normal = 0

abbrev pub log_type_info : ℕ
log_type_info = 1

abbrev pub log_type_warning : ℕ
log_type_warning = 2

abbrev pub log_type_error : ℕ
log_type_error = 3

-- The string of some bytes, with zeros behind them.
abbrev pub bytes : List ℕ → ℕ → ℕ
bytes [] i = 0
bytes (b ∷ rest) zero = b
bytes (b ∷ rest) (suc i) = bytes rest i

-- `"\e[0;3<digit>m"`
abbrev pub code : ℕ → ℕ → ℕ
code digit = bytes (27 ∷ 91 ∷ 48 ∷ 59 ∷ 51 ∷ (48 + digit) ∷ 109 ∷ [])

abbrev pub color_reset : ℕ → ℕ
color_reset = bytes (27 ∷ 91 ∷ 48 ∷ 109 ∷ [])

abbrev pub color_default : ColorInterface
color_default = record { ansi = code 7; shell = 0xffffffff; log = log_type_normal }

-- `s_colors`; a colour with no type of log has `LOG_TYPE_NORMAL`.
abbrev pub colors : List ColorInterface
colors =
    record { ansi = color_reset; shell = 0xffffffff; log = log_type_normal }
    ∷ record { ansi = code 0; shell = 0xff000000; log = log_type_normal }
    ∷ record { ansi = code 1; shell = 0xffff0000; log = log_type_error }
    ∷ record { ansi = code 2; shell = 0xff00ff00; log = log_type_normal }
    ∷ record { ansi = code 3; shell = 0xffffff00; log = log_type_warning }
    ∷ record { ansi = code 4; shell = 0xff0000ff; log = log_type_info }
    ∷ record { ansi = code 5; shell = 0xffff00ff; log = log_type_normal }
    ∷ record { ansi = code 6; shell = 0xff00ffff; log = log_type_normal }
    ∷ record { ansi = code 7; shell = 0xffffffff; log = log_type_normal }
    ∷ []

-- The loop, from byte `i` on. `none` is `COLOR_MATCH_FAIL`.
unfoldable pub compare_loop : (rounds i : ℕ) → (str1 str2 : ℕ → ℕ) → Option ℕ
compare_loop zero i str1 str2 = none
compare_loop (suc rounds) i str1 str2 = elim (str1 i == str2 i) [
  | false ↦ none
  | true ↦ elim ((str1 i == color_ansi_magic_char_end) && (str2 i == color_ansi_magic_char_end)) [
    | true ↦ some (i + 1)
    | false ↦ compare_loop rounds (i + 1) str1 str2
  ]
]

unfoldable pub color_ansi_compare : (str1 str2 : ℕ → ℕ) → Option ℕ
unfolding compare_loop
color_ansi_compare = compare_loop color_ansi_max_size 0

-- The colour that a string begins with, and the length of its code.
unfoldable pub find_ansi : List ColorInterface → (color : ℕ → ℕ) → ColorInterface × Option ℕ
find_ansi [] color = (color_default, none)
find_ansi (c ∷ rest) color = elim (color_ansi_compare c.ansi color) [
  | some index ↦ (c, some index)
  | none ↦ find_ansi rest color
]

unfoldable pub color_from_ansi : (color : ℕ → ℕ) → ColorInterface × Option ℕ
unfolding find_ansi
color_from_ansi color =
    if color 0 == color_ansi_magic_char_start then find_ansi colors color else (color_default, none)

-- The first colour of the table that a test holds of.
unfoldable pub find_color : (ColorInterface → Bool) → List ColorInterface → ColorInterface
find_color test [] = color_default
find_color test (c ∷ rest) = if test c then c else find_color test rest

unfoldable pub color_from_shell : ℕ → ColorInterface
unfolding find_color
color_from_shell color = find_color (λ c. c.shell == color) colors

unfoldable pub color_from_log : ℕ → ColorInterface
unfolding find_color
color_from_log color = find_color (λ c. c.log == color) colors
