-- ===== src/Descriptors/Keyboard.antt =====
-- keyboard_handler of src/kernel/x86_64/interrupt_handler.c: the character of a key.
use visual_os.Base.{ℕ, zero, suc, List, [], ◌∷◌, Option, some, none}

-- `s_keyboard_scancodes`
abbrev pub keyboard_scancodes : List ℕ
keyboard_scancodes =
    0 ∷ 0 ∷ 49 ∷ 50 ∷ 51 ∷ 52 ∷ 53 ∷ 54 ∷ 55 ∷ 56 ∷ 57 ∷ 48 ∷ 45 ∷ 61 ∷ 0 ∷ 0 ∷ 113 ∷ 119 ∷ 101
    ∷ 114 ∷ 116 ∷ 121 ∷ 117 ∷ 105 ∷ 111 ∷ 112 ∷ 91 ∷ 93 ∷ 0 ∷ 0 ∷ 97 ∷ 115 ∷ 100 ∷ 102 ∷ 103 ∷ 104
    ∷ 106 ∷ 107 ∷ 108 ∷ 59 ∷ 39 ∷ 96 ∷ 0 ∷ 92 ∷ 122 ∷ 120 ∷ 99 ∷ 118 ∷ 98 ∷ 110 ∷ 109 ∷ 44 ∷ 46 ∷ 47
    ∷ 0 ∷ 42 ∷ 0 ∷ 32 ∷ []

abbrev pub char_at : List ℕ → ℕ → Option ℕ
char_at [] n = none
char_at (c ∷ rest) zero = some c
char_at (c ∷ rest) (suc n) = char_at rest n

-- The character that is put back to the standard input and then to the standard output, for the byte
-- that the keyboard's port gives; a byte behind the table has none.
unfoldable pub keyboard_handler : (scancode : ℕ) → Option ℕ
keyboard_handler scancode = char_at keyboard_scancodes scancode
