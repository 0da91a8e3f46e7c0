-- ===== src/Base/Run.antt =====
-- Commands on a state: a run returns a value and the new state, waits for ever on a spinlock that
-- nobody else releases, uses up the fuel of a `while` loop, or writes behind the end of an array, after
-- which C says nothing more.

use mathlib.Core.Path.{◌≡◌, ap}

pub data Run (S A : Type 0) : Type 0 where
  ok : A → S → Run S A
  spins : Run S A
  out_of_fuel : Run S A
  overruns : Run S A

abbrev pub Cmd : Type 0 → Type 0 → Type 0
Cmd S A = S → Run S A

module _ {S A : Type 0} where
  abbrev pub pure : A → Cmd S A
  pure a s = ok a s

  -- A read of the state.
  abbrev pub gets : (S → A) → Cmd S A
  gets f s = ok (f s) s

abbrev pub modify : {S : Type 0} → (S → S) → Cmd S (Unit {0})
modify f s = ok tt (f s)

module _ {S A B : Type 0} where
  abbrev pub and_then : Run S A → (A → Cmd S B) → Run S B
  and_then (ok a s) k = k a s
  and_then spins k = spins
  and_then out_of_fuel k = out_of_fuel
  and_then overruns k = overruns

  infixl 5 ◌>>=◌ ◌>>◌
  abbrev pub ◌>>=◌ : Cmd S A → (A → Cmd S B) → Cmd S B
  ◌>>=◌ m k s = and_then (m s) k

  abbrev pub ◌>>◌ : Cmd S A → Cmd S B → Cmd S B
  ◌>>◌ m n s = and_then (m s) (λ _. n)

-- A run that goes on from one that is known.
pub then_ok :
    {S A B : Type 0} {r : Run S A} {a : A} {s : S} (k : A → Cmd S B)
    → r ≡ ok a s
    → and_then r k ≡ k a s
then_ok k e = ap (λ r. and_then r k) e

pub then_out_of_fuel :
    {S A B : Type 0} {r : Run S A} (k : A → Cmd S B) → r ≡ out_of_fuel → and_then r k ≡ out_of_fuel
then_out_of_fuel k e = ap (λ r. and_then r k) e

pub then_eq :
    {S A B : Type 0} {r r' : Run S A} (k : A → Cmd S B) → r ≡ r' → and_then r k ≡ and_then r' k
then_eq k e = ap (λ r. and_then r k) e
