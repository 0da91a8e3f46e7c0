-- ===== src/Symbols/Round.antt =====
-- One round of the loop in `symbol_resolve`.
use visual_os.Base.{
  ℕ, zero, suc, ◌+◌, ◌-◌, ◌/◌, ◌^◌, ◌<◌, ◌≤◌, ◌≡◌, ◌≢◌, refl, Bool, true, false, ◌&&◌, ◌⊎◌, inl,
  inr, Option, some, ltb, leb, add64, arith, ap,
}
use visual_os.Symbols.{SymbolMap, pred64, resolve_loop}

-- What the loop keeps.
pub record Between (map : ℕ → SymbolMap) (address max low high : ℕ) : Type 0 where
  pub ordered : low ≤ high
  pub inside : high ≤ max
  pub from : (map low).address ≤ address
  pub to : (high ≡ max) ⊎ (address < (map (high + 1)).address)

-- The symbol at `i`, but not the next one, if there is one, lies below the address.
pub record IsLocal (map : ℕ → SymbolMap) (address max i : ℕ) : Type 0 where
  pub inside : i ≤ max
  pub not_above : (map i).address ≤ address
  pub next : (i ≡ max) ⊎ (address < (map (i + 1)).address)

abbrev pub Goal : (ℕ → SymbolMap) → ℕ → ℕ → Option ℕ → Type 0
Goal map address max r = (i : ℕ) × (r ≡ some i) × IsLocal map address max i

-- The tests of one round.
abbrev pub runs_on : ℕ → ℕ → ℕ → Bool
runs_on max low high = leb low high && leb low (pred64 max)

abbrev pub found : (ℕ → SymbolMap) → ℕ → ℕ → Bool
found map address mid = leb (map mid).address address && ltb address (map (add64 mid 1)).address

pub pred64-suc : (n : ℕ) → 1 ≤ n → pred64 n ≡ n - 1
pred64-suc zero h = absurd (omega arith)
pred64-suc (suc n) h = omega arith

module _ (fuel : ℕ) (map : ℕ → SymbolMap) (address max low high : ℕ) where
  abbrev mid : ℕ
  mid = add64 low high / 2

  pub loop-stop :
      runs_on max low high ≡ false
      → ltb (pred64 max) low ≡ true
      → resolve_loop (suc fuel) map address max low high ≡ some max
  unfolding resolve_loop
  loop-stop c d = rw (c, d, resolve_loop) refl

  pub loop-found :
      runs_on max low high ≡ true
      → found map address mid ≡ true
      → resolve_loop (suc fuel) map address max low high ≡ some mid
  unfolding resolve_loop
  loop-found c d = rw (c, d, resolve_loop) refl

  pub loop-left :
      runs_on max low high ≡ true
      → found map address mid ≡ false
      → ltb address (map mid).address ≡ true
      → resolve_loop (suc fuel) map address max low high
        ≡ resolve_loop fuel map address max low (pred64 mid)
  unfolding resolve_loop
  loop-left c d e = rw (c, d, e, resolve_loop) refl

  pub loop-right :
      runs_on max low high ≡ true
      → found map address mid ≡ false
      → ltb address (map mid).address ≡ false
      → resolve_loop (suc fuel) map address max low high
        ≡ resolve_loop fuel map address max (add64 mid 1) high
  unfolding resolve_loop
  loop-right c d e = rw (c, d, e, resolve_loop) refl

-- One round of the loop.
module _ (map : ℕ → SymbolMap) (address max low high : ℕ) (some_left : 1 ≤ max) (few : max < 2 ^ 63)
    (b : Between map address max low high) where
  abbrev at : ℕ
  at = add64 low high / 2

  at-value : at ≡ (low + high) / 2
  at-value = omega (arith, b.ordered, b.inside)

  next_at : add64 at 1 ≡ at + 1
  next_at = omega (arith, at-value, b.inside, b.ordered)

  pub stops : max ≤ low → (runs_on max low high ≡ false) × (ltb (pred64 max) low ≡ true)
  stops h = (ground (arith, pred64-suc max), ground (arith, pred64-suc max))

  pub goes_on : low < max → runs_on max low high ≡ true
  goes_on h = ground (arith, pred64-suc max, b.ordered)

  pub top-IsLocal : max ≤ low → IsLocal map address max max
  top-IsLocal h =
      let e : low ≡ max = omega (arith, b.ordered, b.inside) in
      record { inside = omega arith; not_above = rw e at b.from; next = inl refl }

  pub found-IsLocal : found map address at ≡ true → IsLocal map address max at
  found-IsLocal f = record {
    inside = omega (arith, at-value, b.ordered, b.inside);
    not_above = ground arith;
    next = inr (let e : add64 at 1 ≡ at + 1 = next_at in ground arith);
  }

  left_apart : ltb address (map at).address ≡ true → low < at
  left_apart above =
      let apart : low ≢ at = λ e. ground (arith, b.from, ap (λ k. (map k).address) e) in
      omega (arith, apart, at-value, b.ordered)

  pub left : ltb address (map at).address ≡ true → Between map address max low (pred64 at)
  left above =
      let lower : low < at = left_apart above in
      let value : pred64 at ≡ at - 1 = pred64-suc at (omega arith) in
      let back : pred64 at + 1 ≡ at = omega arith in
      record {
        ordered = omega arith;
        inside = omega (arith, b.inside, b.ordered, at-value);
        from = b.from;
        to = inr (rw back (ground arith));
      }

  pub right :
      low < max
      → found map address at ≡ false
      → ltb address (map at).address ≡ false
      → Between map address max (add64 at 1) high
  right more not_found below =
      let next : (map (at + 1)).address ≤ address =
        let e : add64 at 1 ≡ at + 1 = next_at in ground (arith, ap (λ k. (map k).address) e) in
      let room : at ≢ high = λ e. elim b.to [
        | inl top ↦ omega (arith, b.ordered, at-value, more)
        | inr out ↦ omega (arith, out, next, ap (λ k. (map (k + 1)).address) e)
      ] in
      rw next_at (record {
        ordered = omega (arith, room, at-value, b.ordered);
        inside = b.inside;
        from = next;
        to = b.to;
      })

  -- Either half is shorter than the whole.
  pub left_shorter :
      (fuel : ℕ)
      → high < low + suc fuel
      → ltb address (map at).address ≡ true
      → pred64 at < low + fuel
  left_shorter fuel h above =
      let lower : low < at = left_apart above in
      omega (arith, pred64-suc at (omega arith), at-value, b.ordered)

  pub right_shorter : (fuel : ℕ) → high < low + suc fuel → high < add64 at 1 + fuel
  right_shorter fuel h = omega (arith, next_at, at-value, b.ordered)
