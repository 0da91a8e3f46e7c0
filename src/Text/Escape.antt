-- ===== src/Text/Escape.antt =====
-- The escape codes in a text that is put out.
use visual_os.Base.{
  ℕ, suc, ◌+◌, ◌-◌, ◌<◌, ◌≡◌, refl, true, false, Option, none, some, ltb, ◌==◌, arith, ap, sym, ◌∙◌,
}
use visual_os.Text.{Screen, text_handle_ansi_color, text_output, text_output_size, text_output_char}
use visual_os.Text.Color.{
  ColorInterface, color_ansi_magic_char_start, color_ansi_magic_char_end, color_default,
  color_from_ansi,
}
use visual_os.Text.Ansi.{color_from_ansi-Matches}

module _ (str : ℕ → ℕ) (i : ℕ) (s : Screen) where
  handle-found :
      (c : ColorInterface) (k : ℕ)
      → color_from_ansi (λ j. str (i + j)) ≡ (c, some k)
      → text_handle_ansi_color str i s ≡ (some k, record s { color_state = c.shell })
  unfolding text_handle_ansi_color
  handle-found c k e =
      let e0 : (color_from_ansi (λ j. str (i + j))).0 ≡ c =
        ap (λ (r : ColorInterface × Option ℕ). r.0) e in
      let e1 : (color_from_ansi (λ j. str (i + j))).1 ≡ some k =
        ap (λ (r : ColorInterface × Option ℕ). r.1) e in
      rw (e1, e0, text_handle_ansi_color) refl

  handle-other :
      (str i == color_ansi_magic_char_start) ≡ false → text_handle_ansi_color str i s ≡ (none, s)
  unfolding text_handle_ansi_color color_from_ansi
  handle-other h =
      let at_i : (str (i + 0) == color_ansi_magic_char_start) ≡ false = ground (arith, h) in
      let fails : color_from_ansi (λ j. str (i + j)) ≡ (color_default, none) =
        rw (at_i, color_from_ansi) refl in
      let fails1 : (color_from_ansi (λ j. str (i + j))).1 ≡ none =
        ap (λ (r : ColorInterface × Option ℕ). r.1) fails in
      rw (fails1, text_handle_ansi_color) refl

  output-code :
      (fuel k : ℕ) (t : Screen)
      → (str i == 0) ≡ false
      → text_handle_ansi_color str i s ≡ (some k, t)
      → text_output (suc fuel) i str s ≡ text_output fuel (i + (k - 1)) str t
  unfolding text_output
  output-code fuel k t some_char e =
      let e0 : (text_handle_ansi_color str i s).0 ≡ some k =
        ap (λ (r : Option ℕ × Screen). r.0) e in
      let e1 : (text_handle_ansi_color str i s).1 ≡ t = ap (λ (r : Option ℕ × Screen). r.1) e in
      rw (some_char, e0, e1, text_output) refl

  output-other :
      (fuel : ℕ)
      → (str i == 0) ≡ false
      → text_handle_ansi_color str i s ≡ (none, s)
      → text_output (suc fuel) i str s ≡ text_output fuel (i + 1) str (text_output_char (str i) s)
  unfolding text_output
  output-other fuel some_char e =
      let e0 : (text_handle_ansi_color str i s).0 ≡ none = ap (λ (r : Option ℕ × Screen). r.0) e in
      let e1 : (text_handle_ansi_color str i s).1 ≡ s = ap (λ (r : Option ℕ × Screen). r.1) e in
      rw (some_char, e0, e1, text_output) refl

  size-code :
      (fuel k size : ℕ) (t : Screen)
      → ltb i size ≡ true
      → text_handle_ansi_color str i s ≡ (some k, t)
      → text_output_size (suc fuel) i str size s
        ≡ text_output_size fuel (i + (k - 1) + 1) str size t
  unfolding text_output_size
  size-code fuel k size t inside e =
      let e0 : (text_handle_ansi_color str i s).0 ≡ some k =
        ap (λ (r : Option ℕ × Screen). r.0) e in
      let e1 : (text_handle_ansi_color str i s).1 ≡ t = ap (λ (r : Option ℕ × Screen). r.1) e in
      rw (inside, e0, e1, text_output_size) refl

-- At the code of a colour, `text_output` takes the colour and goes on behind the code, but writes the
-- `m` at the end of the code as a character; `text_output_size` takes the colour and writes nothing.
pub escape_lem :
    (str : ℕ → ℕ) (i : ℕ) (s : Screen) (c : ColorInterface) (k fuel size : ℕ)
    → color_from_ansi (λ j. str (i + j)) ≡ (c, some k)
    → i < size
    → (text_output (suc (suc fuel)) i str s
        ≡ text_output fuel
            (i + k)
            str
            (text_output_char color_ansi_magic_char_end (record s { color_state = c.shell })))
      × (text_output_size (suc fuel) i str size s
          ≡ text_output_size fuel (i + k) str size (record s { color_state = c.shell }))
escape_lem str i s c k fuel size e inside =
    let (m, le, start) = color_from_ansi-Matches (λ j. str (i + j)) c k e in
    let more : 0 < k = m.after in
    let first : str i ≡ color_ansi_magic_char_start =
      let at : i + 0 ≡ i = omega arith in rw at at start in
    let last : str (i + (k - 1)) ≡ color_ansi_magic_char_end =
      sym (m.same (k - 1) (omega arith) (omega arith)) ∙ m.end in
    let coloured : Screen = record s { color_state = c.shell } in
    let step1 : text_output (suc (suc fuel)) i str s
        ≡ text_output (suc fuel) (i + (k - 1)) str coloured =
      output-code str i s (suc fuel) k coloured (ground (arith, first))
        (handle-found str i s c k e) in
    let step2 : text_output (suc fuel) (i + (k - 1)) str coloured
        ≡ text_output fuel (i + (k - 1) + 1) str (text_output_char (str (i + (k - 1))) coloured) =
      output-other str (i + (k - 1)) coloured fuel (ground (arith, last))
        (handle-other str (i + (k - 1)) coloured (ground (arith, last))) in
    let behind : i + (k - 1) + 1 ≡ i + k = omega arith in
    (
      step1 ∙ rw (behind, last) at step2,
      rw behind at
          (size-code str i s fuel k size coloured (ground arith) (handle-found str i s c k e)),
    )
