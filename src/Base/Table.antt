-- ===== src/Base/Table.antt =====
-- Loops over a table that return at the first entry that fits.
use Prim.Native.Nat.{ℕ, zero, suc}
use mathlib.Core.Path.{◌≡◌, refl, ◌∙◌}
use mathlib.Core.Logic.{◌⊎◌, inl, inr}
use mathlib.Core.Bool.{Bool, true, false, not, ◌&&◌}
use mathlib.Core.Option.{none, some}
use mathlib.Core.List.{List, [], ◌∷◌}
use native.Mathlib.Omega.{arith}
use visual_os.Base.Lists.{get_elem?}
use visual_os.Base.Tests.{◌==◌, if◌then◌else◌, Bool-cases}

-- The value of the first entry that matches, or a default.
unfoldable pub first_match {ℓ κ} : {A : Type ℓ} {B : Type κ} → (A → Bool) → (A → B) → B → List A → B
first_match matches value missing [] = missing
first_match matches value missing (entry ∷ rest) =
    if matches entry then value entry else first_match matches value missing rest

module _ {A : Type 0} (clash : A → A → Bool) where
  none_clash : A → List A → Bool
  none_clash x [] = true
  none_clash x (y ∷ ys) = not (clash x y) && none_clash x ys

  -- No two entries have the same key.
  unfoldable pub apart : List A → Bool
  unfolding none_clash
  apart [] = true
  apart (x ∷ xs) = none_clash x xs && apart xs

module _ {A B : Type 0} (matches : A → Bool) (value : A → B) (missing : B) where
  -- Whether there is an entry at the index, and it fits.
  abbrev pub hits : List A → ℕ → Bool
  hits entries j = elim (get_elem? entries j) [ none ↦ false | some e ↦ matches e ]

  -- The result is the value of the one entry that fits, or the default if none does.
  abbrev pub IsOnly : List A → B → Type 0
  IsOnly entries result =
      ((i : ℕ) × (e : A) × (get_elem? entries i ≡ some e)
        × (result ≡ value e)
        × ((j : ℕ) → hits entries j ≡ (j == i)))
      ⊎ ((result ≡ missing) × ((j : ℕ) → hits entries j ≡ false))

  module _ (clash : A → A → Bool)
      (both : (x y : A) → matches x ≡ true → matches y ≡ true → clash x y ≡ true) where
    no_second :
        (x : A) (ys : List A)
        → none_clash clash x ys ≡ true
        → matches x ≡ true
        → (j : ℕ) → hits ys j ≡ false
    unfolding none_clash
    no_second x [] c m j = refl
    no_second x (y ∷ ys) c m zero = ground (arith, both x y)
    no_second x (y ∷ ys) c m (suc j) = no_second x ys (ground arith) m j

    first_only :
        (x : A) (xs : List A)
        → none_clash clash x xs ≡ true
        → matches x ≡ true
        → (j : ℕ) → hits (x ∷ xs) j ≡ (j == 0)
    first_only x xs c m zero = m
    first_only x xs c m (suc j) = no_second x xs c m j ∙ ground arith

    one_later :
        (x : A) (xs : List A) (i : ℕ)
        → matches x ≡ false
        → ((j : ℕ) → hits xs j ≡ (j == i))
        → (j : ℕ) → hits (x ∷ xs) j ≡ (j == suc i)
    one_later x xs i m one zero = m ∙ ground arith
    one_later x xs i m one (suc j) = one j ∙ ground arith

    none_later :
        (x : A) (xs : List A)
        → matches x ≡ false
        → ((j : ℕ) → hits xs j ≡ false)
        → (j : ℕ) → hits (x ∷ xs) j ≡ false
    none_later x xs m never zero = m
    none_later x xs m never (suc j) = never j

    pub first_match-IsOnly :
        (entries : List A)
        → apart clash entries ≡ true
        → IsOnly entries (first_match matches value missing entries)
    unfolding first_match apart
    first_match-IsOnly [] a = inr (refl, λ j. refl)
    first_match-IsOnly (x ∷ xs) a = elim (Bool-cases (matches x)) [
      | inl m ↦ inl (0, x, refl, rw m refl, first_only x xs (ground arith) m)
      | inr m ↦ elim (first_match-IsOnly xs (ground arith)) [
        | inl (i, e, at, same, one) ↦ inl (suc i, e, at, rw m same, one_later x xs i m one)
        | inr (same, never) ↦ inr (rw m same, none_later x xs m never)
      ]
    ]
