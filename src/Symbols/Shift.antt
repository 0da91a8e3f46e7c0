-- ===== src/Symbols/Shift.antt =====
-- The inner loop of the sort in `symbol_init`, which moves the greater entries up.
use native.Mathlib.Decide.{dec_lt, ℕ_discrete}
use visual_os.Base.{
  ℕ, zero, suc, ◌+◌, ◌-◌, ◌^◌, ◌<◌, ◌≤◌, ◌≡◌, ◌≢◌, refl, true, false, Option, none, some, ltb, ◌==◌,
  u64_mod, add64, update, arith, ◌∙◌, inl, inr, ◌⊎◌, Bool-cases,
}
use visual_os.Symbols.{SymbolMap, pred64, shift_loop}

-- The entries from `c` to `n` have moved up by one, and are above the value.
pub record Shifted (old map : ℕ → SymbolMap) (n value c : ℕ) : Type 0 where
  pub inside : c ≤ n
  pub lower : (k : ℕ) → k < c → map k ≡ old k
  pub upper : (k : ℕ) → c ≤ k → k < n → map (k + 1) ≡ old k
  pub above : (k : ℕ) → c ≤ k → k < n → value < (old k).address
  pub edge : map (u64_mod - 1) ≡ old (u64_mod - 1)

pub record Place (old : ℕ → SymbolMap) (n value : ℕ) (r : Option ((ℕ → SymbolMap) × ℕ))
    : Type 0 where
  pub place : ℕ
  pub map : ℕ → SymbolMap
  pub run : r ≡ some (map, pred64 place)
  pub shifted : Shifted old map n value place
  pub under : place ≡ 0 ⊎ (old (place - 1)).address ≤ value

pub update-same : (map : ℕ → SymbolMap) (i : ℕ) (x : SymbolMap) → update map i x i ≡ x
update-same map i x = ground arith

pub update-other :
    (map : ℕ → SymbolMap) (i k : ℕ) (x : SymbolMap) → i ≢ k → update map i x k ≡ map k
update-other map i k x h = ground arith

shift-Shifted :
    (old map : ℕ → SymbolMap) (n value c : ℕ)
    → n < 2 ^ 63
    → value < (old c).address
    → Shifted old map n value (suc c)
    → Shifted old (update map (suc c) (map c)) n value c
shift-Shifted old map n value c few big s = record {
  inside = omega (arith, s.inside);
  lower = λ k h. update-other map (suc c) k (map c) (omega arith) ∙ s.lower k (omega arith);
  upper = λ k h in_map. elim (ℕ_discrete k c) [
    | yes e ↦
        let there : c + 1 ≡ suc c = omega arith in
        rw (e, there) (update-same map (suc c) (map c) ∙ s.lower c (omega arith))
    | no ne ↦
        update-other map (suc c) (k + 1) (map c) (omega arith) ∙ s.upper k (omega arith) in_map
  ];
  above = λ k h in_map. elim (ℕ_discrete k c) [
    | yes e ↦ rw e big
    | no ne ↦ s.above k (omega arith) in_map
  ];
  edge = update-other map (suc c) (u64_mod - 1) (map c) (omega (arith, s.inside)) ∙ s.edge;
}

shift_loop-stop :
    (fuel value j : ℕ) (map : ℕ → SymbolMap)
    → (map j).address ≤ value
    → shift_loop (suc fuel) value j map ≡ some (map, j)
unfolding shift_loop
shift_loop-stop fuel value j map h =
    let c : ltb value (map j).address ≡ false = ground arith in rw (c, shift_loop) refl

shift_loop-next :
    (fuel value j : ℕ) (map : ℕ → SymbolMap)
    → value < (map j).address
    → shift_loop (suc fuel) value j map
      ≡ shift_loop fuel value (pred64 j) (update map (add64 j 1) (map j))
unfolding shift_loop
shift_loop-next fuel value j map h =
    let c : ltb value (map j).address ≡ true = ground arith in rw (c, shift_loop) refl

pub shift_loop-Place :
    (fuel : ℕ) (old map : ℕ → SymbolMap) (n value c : ℕ)
    → n < 2 ^ 63
    → (old (u64_mod - 1)).address ≤ value
    → c < fuel
    → Shifted old map n value c
    → Place old n value (shift_loop fuel value (pred64 c) map)
shift_loop-Place zero old map n value c few sentinel h s = absurd (omega arith)
shift_loop-Place (suc fuel) old map n value zero few sentinel h s = record {
  place = 0;
  map = map;
  run = shift_loop-stop fuel value (u64_mod - 1) map (rw s.edge sentinel);
  shifted = s;
  under = inl refl;
}
shift_loop-Place (suc fuel) old map n value (suc c) few sentinel h s =
    let here : map c ≡ old c = s.lower c (omega arith) in
    elim (dec_lt value (old c).address) [
      | no small ↦ record {
        place = suc c;
        map = map;
        run = shift_loop-stop fuel value c map (rw here (omega arith));
        shifted = s;
        under = inr (let e : suc c - 1 ≡ c = omega arith in rw e (omega arith));
      }
      | yes big ↦
          let next : add64 c 1 ≡ suc c = omega (arith, s.inside) in
          let step : shift_loop (suc fuel) value c map
              ≡ shift_loop fuel value (pred64 c) (update map (add64 c 1) (map c)) =
            shift_loop-next fuel value c map (rw here big) in
          let rest =
            shift_loop-Place fuel old (update map (suc c) (map c)) n value c few sentinel
              (omega arith) (shift-Shifted old map n value c few big s) in
          record {
            place = rest.place;
            map = rest.map;
            run = rw next at step ∙ rest.run;
            shifted = rest.shifted;
            under = rest.under;
          }
    ]

-- Where every entry that is read lies above the value, the loop never ends: no test stops `j` at 0.
pub shift_loop-above :
    (fuel value j : ℕ) (map : ℕ → SymbolMap)
    → ((k : ℕ) → value < (map k).address)
    → shift_loop fuel value j map ≡ none
unfolding shift_loop
shift_loop-above zero value j map above = refl
shift_loop-above (suc fuel) value j map above =
    shift_loop-next fuel value j map (above j)
    ∙ shift_loop-above fuel value (pred64 j) (update map (add64 j 1) (map j)) (λ k.
      elim (Bool-cases (add64 j 1 == k)) [ inl e ↦ rw e (above j) | inr ne ↦ rw ne (above k) ])
