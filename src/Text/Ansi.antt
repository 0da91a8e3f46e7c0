-- ===== src/Text/Ansi.antt =====
-- Which string a colour code is found in.
use native.Mathlib.Decide.{ℕ_discrete}
use mathlib.Core.Option.{none-ne-some, some-injective}
use visual_os.Base.{
  ℕ, zero, suc, ◌+◌, ◌-◌, ◌<◌, ◌≤◌, ◌≡◌, ◌≢◌, refl, true, Option, none, some, List, [], ◌∷◌, ◌==◌,
  arith, ap, sym, inl, inr, Bool-cases,
}
use visual_os.Text.Color.{
  ColorInterface, color_ansi_magic_char_start, color_ansi_magic_char_end, color_ansi_max_size,
  colors, compare_loop, color_ansi_compare, find_ansi, color_from_ansi,
}

-- From byte `from` on, both strings have the same bytes up to the first `m`, which is byte `k - 1`.
pub record Matches (str1 str2 : ℕ → ℕ) (from k : ℕ) : Type 0 where
  pub after : from < k
  pub same : (j : ℕ) → from ≤ j → j < k → str1 j ≡ str2 j
  pub end : str1 (k - 1) ≡ color_ansi_magic_char_end
  pub before : (j : ℕ) → from ≤ j → j < k - 1 → str1 j ≢ color_ansi_magic_char_end

compare_loop-Matches :
    (rounds i k : ℕ) (str1 str2 : ℕ → ℕ)
    → compare_loop rounds i str1 str2 ≡ some k
    → Matches str1 str2 i k × (k ≤ i + rounds)
unfolding compare_loop
compare_loop-Matches zero i k str1 str2 e = absurd (none-ne-some k e)
compare_loop-Matches (suc rounds) i k str1 str2 e = elim (Bool-cases (str1 i == str2 i)) [
  | inr differ ↦ absurd (none-ne-some k (rw (differ, compare_loop) at e))
  | inl same ↦ elim (Bool-cases (str1 i == color_ansi_magic_char_end)) [
    | inl ends ↦
        let ends' : (str2 i == color_ansi_magic_char_end) ≡ true = ground (arith, same, ends) in
        let here : i + 1 ≡ k = some-injective _ _ (rw (same, ends, ends', compare_loop) at e) in
        (
          record {
            after = omega arith;
            same = λ j a b. let at_i : j ≡ i = omega arith in rw at_i (ground (arith, same));
            end = let last : k - 1 ≡ i = omega arith in rw last (ground (arith, ends));
            before = λ j a b. absurd (omega arith);
          },
          omega arith,
        )
    | inr goes ↦
        let (m, le) =
          compare_loop-Matches rounds (i + 1) k str1 str2 (rw (same, goes, compare_loop) at e) in
        (
          record {
            after = omega (arith, m.after);
            same = λ j a b. elim (ℕ_discrete j i) [
              | yes at_i ↦ rw at_i (ground (arith, same))
              | no ne ↦ m.same j (omega arith) b
            ];
            end = m.end;
            before = λ j a b. elim (ℕ_discrete j i) [
              | yes at_i ↦ rw at_i (ground (arith, goes))
              | no ne ↦ m.before j (omega arith) b
            ];
          },
          omega (arith, le),
        )
  ]
]

find_ansi-Matches :
    (list : List ColorInterface) (str : ℕ → ℕ) (c : ColorInterface) (k : ℕ)
    → find_ansi list str ≡ (c, some k)
    → Matches c.ansi str 0 k × (k ≤ color_ansi_max_size)
unfolding find_ansi color_ansi_compare
find_ansi-Matches [] str c k e =
    absurd (none-ne-some k (ap (λ (r : ColorInterface × Option ℕ). r.1) e))
find_ansi-Matches (d ∷ rest) str c k e =
    go (find_ansi-Matches rest str c k) (color_ansi_compare d.ansi str) refl
  where
    go :
        (find_ansi rest str ≡ (c, some k) → Matches c.ansi str 0 k × (k ≤ color_ansi_max_size))
        → (r : Option ℕ) → color_ansi_compare d.ansi str ≡ r
        → Matches c.ansi str 0 k × (k ≤ color_ansi_max_size)
    go later none r = later (rw (r, find_ansi) at e)
    go later (some n) r =
        let found : (d, some n) ≡ (c, some k) = rw (r, find_ansi) at e in
        let is_c : d ≡ c = ap (λ (x : ColorInterface × Option ℕ). x.0) found in
        let is_k : n ≡ k = some-injective n k (ap (λ (x : ColorInterface × Option ℕ). x.1) found) in
        rw (sym is_c, sym is_k) (compare_loop-Matches color_ansi_max_size 0 n d.ansi str r)

-- A colour that is found in a string is there with its whole code, which begins with the escape
-- character and ends with the first `m`, at most 8 bytes on.
pub color_from_ansi-Matches :
    (str : ℕ → ℕ) (c : ColorInterface) (k : ℕ)
    → color_from_ansi str ≡ (c, some k)
    → Matches c.ansi str 0 k × (k ≤ color_ansi_max_size) × (str 0 ≡ color_ansi_magic_char_start)
unfolding color_from_ansi
color_from_ansi-Matches str c k e = elim (Bool-cases (str 0 == color_ansi_magic_char_start)) [
  | inl starts ↦
      let (m, le) = find_ansi-Matches colors str c k (rw (starts, color_from_ansi) at e) in
      (m, le, ground (arith, starts))
  | inr other ↦ absurd (
      none-ne-some k
        (ap (λ (r : ColorInterface × Option ℕ). r.1) (rw (other, color_from_ansi) at e)))
]
