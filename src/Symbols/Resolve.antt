-- ===== src/Symbols/Resolve.antt =====
-- `symbol_resolve` finds the symbol that an address belongs to.
use native.Mathlib.Decide.{dec_lt}
use visual_os.Base.{
  ℕ, zero, suc, ◌+◌, ◌-◌, ◌/◌, ◌^◌, ◌<◌, ◌≤◌, ◌≡◌, refl, true, false, inl, inr, Bool-cases, none,
  some, ltb, add64, arith, ◌∙◌,
}
use visual_os.Symbols.Round.{
  Between, Goal, runs_on, found, pred64-suc, loop-stop, loop-found, loop-left, loop-right, stops,
  goes_on, top-IsLocal, found-IsLocal, left, right, left_shorter, right_shorter,
}
use visual_os.Symbols.{SymbolMap, pred64, resolve_loop, symbol_resolve}

abbrev pub IsSorted : (ℕ → SymbolMap) → ℕ → Type 0
IsSorted map num = (i j : ℕ) → i ≤ j → j < num → (map i).address ≤ (map j).address

-- Of the first `num` symbols `i` is the last that does not lie above the address.
pub record IsClosest (map : ℕ → SymbolMap) (num address i : ℕ) : Type 0 where
  pub inside : i < num
  pub not_above : (map i).address ≤ address
  pub later : (j : ℕ) → i < j → j < num → address < (map j).address

resolve_loop-IsLocal :
    (fuel : ℕ) (map : ℕ → SymbolMap) (address max low high : ℕ)
    → 1 ≤ max
    → max < 2 ^ 63
    → high < low + fuel
    → Between map address max low high
    → Goal map address max (resolve_loop fuel map address max low high)
resolve_loop-IsLocal zero map address max low high some_left few h b =
    absurd (omega (arith, b.ordered))
resolve_loop-IsLocal (suc fuel) map address max low high some_left few h b = elim (dec_lt low max) [
  | no top ↦
      let past : max ≤ low = omega arith in
      let (c, d) = stops map address max low high some_left few b past in
      (
        max,
        loop-stop fuel map address max low high c d,
        top-IsLocal map address max low high some_left few b past,
      )
  | yes more ↦
      let c = goes_on map address max low high some_left few b more in
      elim (Bool-cases (found map address (add64 low high / 2))) [
        | inl f ↦ (
          _,
          loop-found fuel map address max low high c f,
          found-IsLocal map address max low high some_left few b f,
        )
        | inr f ↦ elim (Bool-cases (ltb address (map (add64 low high / 2)).address)) [
          | inl above ↦
              let (i, run, result) =
                resolve_loop-IsLocal fuel map address max low (pred64 (add64 low high / 2))
                  some_left few (left_shorter map address max low high some_left few b fuel h above)
                  (left map address max low high some_left few b above) in
              (i, loop-left fuel map address max low high c f above ∙ run, result)
          | inr below ↦
              let (i, run, result) =
                resolve_loop-IsLocal fuel map address max (add64 (add64 low high / 2) 1) high
                  some_left few (right_shorter map address max low high some_left few b fuel h)
                  (right map address max low high some_left few b more f below) in
              (i, loop-right fuel map address max low high c f below ∙ run, result)
        ]
      ]
]

-- For a sorted map of two symbols or more, and an address that is not below the first of them,
-- `symbol_resolve` returns the last symbol that is not above the address.
pub symbol_resolve-IsClosest :
    (map : ℕ → SymbolMap) (num address : ℕ)
    → 2 ≤ num
    → num ≤ 2 ^ 63
    → IsSorted map num
    → (map 0).address ≤ address
    → (i : ℕ) × (symbol_resolve map num address ≡ some i) × IsClosest map num address i
unfolding symbol_resolve
symbol_resolve-IsClosest map num address two few sorted first =
    let value : pred64 num ≡ num - 1 = pred64-suc num (omega arith) in
    let (i, run, result) =
      resolve_loop-IsLocal (pred64 num + 1) map address (pred64 num) 0 (pred64 num) (omega arith)
        (omega arith) (omega arith)
        (record { ordered = omega arith; inside = omega arith; from = first; to = inl refl }) in
    (
      i,
      run,
      record {
        inside = omega (arith, result.inside);
        not_above = result.not_above;
        later = λ j more in_map. elim result.next [
          | inl top ↦ absurd (omega arith)
          | inr above ↦ omega (arith, above, sorted (i + 1) j (omega arith) in_map)
        ];
      },
    )

-- Where the address lies below every entry that is read, the loop never ends, however many rounds it
-- is given: the high end wraps around below 0 and comes down again.
pub resolve_loop-below :
    (map : ℕ → SymbolMap) (address max high fuel : ℕ)
    → 1 ≤ max
    → ((k : ℕ) → address < (map k).address)
    → resolve_loop fuel map address max 0 high ≡ none
unfolding resolve_loop
resolve_loop-below map address max high zero some_left below = refl
resolve_loop-below map address max high (suc fuel) some_left below =
    let c : runs_on max 0 high ≡ true = ground (arith, pred64-suc max) in
    let above = below (add64 0 high / 2) in
    let f : found map address (add64 0 high / 2) ≡ false = ground arith in
    let d : ltb address (map (add64 0 high / 2)).address ≡ true = ground arith in
    loop-left fuel map address max 0 high c f d
    ∙ resolve_loop-below map address max (pred64 (add64 0 high / 2)) fuel some_left below
