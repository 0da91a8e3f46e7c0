-- ===== src/Base/Loop.antt =====
-- `for (i = from; i < from + n; i++) s = body(i, s)`, with its invariant rule.
use Prim.Native.Nat.{ℕ, zero, suc, ◌+◌}
use mathlib.Core.Path.{◌≡◌, refl, ◌∙◌}

module _ {ℓ} {S : Type ℓ} (body : ℕ → S → S) where
  -- `rounds` rounds are left.
  unfoldable pub for_range : (rounds i : ℕ) → S → S
  for_range zero i s = s
  for_range (suc rounds) i s = for_range rounds (i + 1) (body i s)

  pub for_range-zero : (i : ℕ) (s : S) → for_range 0 i s ≡ s
  unfolding for_range
  for_range-zero i s = refl

  -- The first round.
  pub for_range-suc :
      (rounds i : ℕ) (s : S) → for_range (suc rounds) i s ≡ for_range rounds (i + 1) (body i s)
  unfolding for_range
  for_range-suc rounds i s = refl

  -- What holds of every state that a round leaves, if it holds of the one before.
  pub for_range-keeps {κ} :
      (Keeps : S → Type κ)
      → ((i : ℕ) (s : S) → Keeps s → Keeps (body i s))
      → (rounds i : ℕ) (s : S) → Keeps s
      → Keeps (for_range rounds i s)
  unfolding for_range
  for_range-keeps Keeps one zero i s h = h
  for_range-keeps Keeps one (suc rounds) i s h =
      for_range-keeps Keeps one rounds (i + 1) (body i s) (one i s h)

  -- A loop computes what a function of the rounds left, the index and the state says, if one round
  -- of the body takes the one to the other.
  pub for_range-eq {κ} :
      (F : ℕ → ℕ → S → S) (Fits : ℕ → ℕ → S → Type κ)
      → ((i : ℕ) (s : S) → Fits 0 i s → s ≡ F 0 i s)
      → ((rounds i : ℕ) (s : S)
          → Fits (suc rounds) i s
          → Fits rounds (i + 1) (body i s) × (F rounds (i + 1) (body i s) ≡ F (suc rounds) i s))
      → (rounds i : ℕ) (s : S) → Fits rounds i s
      → for_range rounds i s ≡ F rounds i s
  unfolding for_range
  for_range-eq F Fits stop round zero i s h = stop i s h
  for_range-eq F Fits stop round (suc rounds) i s h =
      let r = round rounds i s h in
      for_range-eq F Fits stop round rounds (i + 1) (body i s) r.0 ∙ r.1
