-- ===== src/Symbols/Insert.antt =====
-- One round of the insertion sort in `symbol_init`.
use native.Mathlib.Decide.{dec_lt, ℕ_discrete}
use visual_os.Base.{
  ℕ, zero, suc, ◌+◌, ◌-◌, ◌^◌, ◌<◌, ◌≤◌, ◌≡◌, refl, true, some, leb, u64_mod, add64, update, arith,
  ap, ◌∙◌, inl, inr, ◌⊎◌,
}
use visual_os.Symbols.{SymbolMap, pred64, shift_loop, insert_symbol}
use visual_os.Symbols.Shift.{Shifted, update-same, update-other, shift_loop-Place}
use visual_os.Symbols.Resolve.{IsSorted}

-- The `n` old entries and the new one, at the place that keeps the order.
pub record Inserted (old new : ℕ → SymbolMap) (n : ℕ) (x : SymbolMap) : Type 0 where
  pub place : ℕ
  pub inside : place ≤ n
  pub lower : (k : ℕ) → k < place → new k ≡ old k
  pub here : new place ≡ x
  pub upper : (k : ℕ) → place ≤ k → k < n → new (k + 1) ≡ old k
  pub under : (k : ℕ) → k < place → (old k).address ≤ x.address
  pub above : (k : ℕ) → place ≤ k → k < n → x.address < (old k).address
  pub edge : new (u64_mod - 1) ≡ old (u64_mod - 1)

insert_symbol-shifted :
    (value i ai j : ℕ) (map shifted : ℕ → SymbolMap)
    → shift_loop (ai + 1) value (pred64 ai) map ≡ some (shifted, j)
    → 1 ≤ ai
    → insert_symbol value i ai map
      ≡ some (update shifted (add64 j 1) (record { address = value; symbol_index = i }))
unfolding insert_symbol
insert_symbol-shifted value i ai j map shifted run h =
    let c : leb 1 ai ≡ true = ground arith in rw (c, run, insert_symbol) refl

back_again : (c : ℕ) → c < 2 ^ 63 → add64 (pred64 c) 1 ≡ c
back_again zero h = refl
back_again (suc c) h = omega arith

place-Inserted :
    (old map : ℕ → SymbolMap) (n c : ℕ) (x : SymbolMap)
    → n < 2 ^ 63
    → IsSorted old n
    → Shifted old map n x.address c
    → (c ≡ 0) ⊎ ((old (c - 1)).address ≤ x.address)
    → Inserted old (update map (add64 (pred64 c) 1) x) n x
place-Inserted old map n c x few sorted s under =
    let at_place : add64 (pred64 c) 1 ≡ c = back_again c (omega (arith, s.inside)) in
    rw at_place (record {
      place = c;
      inside = s.inside;
      lower = λ k h. update-other map c k x (omega arith) ∙ s.lower k h;
      here = update-same map c x;
      upper = λ k h in_map. update-other map c (k + 1) x (omega arith) ∙ s.upper k h in_map;
      under = λ k h. elim under [
        | inl e ↦ absurd (omega arith)
        | inr le ↦
            omega (arith, le, s.inside, sorted k (c - 1) (omega arith) (omega (arith, s.inside)))
      ];
      above = s.above;
      edge = update-other map c (u64_mod - 1) x (omega (arith, s.inside)) ∙ s.edge;
    })

nothing-Shifted : (map : ℕ → SymbolMap) (n value : ℕ) → Shifted map map n value n
nothing-Shifted map n value = record {
  inside = omega arith;
  lower = λ k h. refl;
  upper = λ k h in_map. absurd (omega arith);
  above = λ k h in_map. absurd (omega arith);
  edge = refl;
}

insert_symbol-first :
    (value i : ℕ) (map : ℕ → SymbolMap)
    → insert_symbol value i 0 map
      ≡ some (update map (add64 (pred64 0) 1) (record { address = value; symbol_index = i }))
unfolding insert_symbol
insert_symbol-first value i map = refl

-- With entries that are sorted, and an entry before the first of them that is not above the value,
-- the sort's inner loop ends and the new entry is put at the place that keeps the order.
pub insert_symbol-Inserted :
    (value i ai : ℕ) (map : ℕ → SymbolMap)
    → ai < 2 ^ 63
    → IsSorted map ai
    → (map (u64_mod - 1)).address ≤ value
    → (new : ℕ → SymbolMap) × (insert_symbol value i ai map ≡ some new)
      × Inserted map new ai (record { address = value; symbol_index = i })
insert_symbol-Inserted value i zero map few sorted sentinel = (
  _,
  insert_symbol-first value i map,
  place-Inserted map map 0 0 (record { address = value; symbol_index = i }) few sorted
      (nothing-Shifted map 0 value) (inl refl),
)
insert_symbol-Inserted value i (suc n) map few sorted sentinel =
    let place =
      shift_loop-Place (suc n + 1) map map (suc n) value (suc n) few sentinel (omega arith)
        (nothing-Shifted map (suc n) value) in
    (
      _,
      insert_symbol-shifted value i (suc n) (pred64 place.place) map place.map place.run
          (omega arith),
      place-Inserted map place.map (suc n) place.place
          (record { address = value; symbol_index = i }) few sorted place.shifted place.under,
    )

-- Where an entry of the new map comes from.
abbrev Origin : (ℕ → SymbolMap) → (ℕ → SymbolMap) → SymbolMap → ℕ → ℕ → Type 0
Origin old new x place k =
    ((k < place) × ((new k).address ≡ (old k).address))
    ⊎ ((k ≡ place) × ((new k).address ≡ x.address))
    ⊎ ((place < k) × ((new k).address ≡ (old (k - 1)).address))

Inserted-Origin :
    (old new : ℕ → SymbolMap) (n : ℕ) (x : SymbolMap) (r : Inserted old new n x) (k : ℕ)
    → k < suc n
    → Origin old new x r.place k
Inserted-Origin old new n x r k h = elim (dec_lt k r.place) [
  | yes before ↦ inl (before, ap (λ (m : SymbolMap). m.address) (r.lower k before))
  | no not_before ↦ elim (ℕ_discrete k r.place) [
    | yes e ↦
        let here : new k ≡ x = rw e r.here in inr (inl (e, ap (λ (m : SymbolMap). m.address) here))
    | no ne ↦
        let next : k - 1 + 1 ≡ k = omega arith in
        let moved : new (k - 1 + 1) ≡ old (k - 1) = r.upper (k - 1) (omega arith) (omega arith) in
        let back : new k ≡ old (k - 1) = rw next at moved in
        inr (inr (omega arith, ap (λ (m : SymbolMap). m.address) back))
  ]
]

-- The order is kept.
pub Inserted-IsSorted :
    (old new : ℕ → SymbolMap) (n : ℕ) (x : SymbolMap)
    → IsSorted old n
    → Inserted old new n x
    → IsSorted new (suc n)
Inserted-IsSorted old new n x sorted r i j h in_map =
    elim (Inserted-Origin old new n x r i (omega arith)) [
      | inl (a, e) ↦ elim (Inserted-Origin old new n x r j in_map) [
        | inl (b, f) ↦ omega (arith, sorted i j h (omega (arith, r.inside)))
        | inr (inl (b, f)) ↦ omega (arith, r.under i a)
        | inr (inr (b, f)) ↦ omega (arith, sorted i (j - 1) (omega arith) (omega arith))
      ]
      | inr (inl (a, e)) ↦ elim (Inserted-Origin old new n x r j in_map) [
        | inl (b, f) ↦ absurd (omega arith)
        | inr (inl (b, f)) ↦ omega arith
        | inr (inr (b, f)) ↦ omega (arith, r.above (j - 1) (omega arith) (omega arith))
      ]
      | inr (inr (a, e)) ↦ elim (Inserted-Origin old new n x r j in_map) [
        | inl (b, f) ↦ absurd (omega arith)
        | inr (inl (b, f)) ↦ absurd (omega arith)
        | inr (inr (b, f)) ↦ omega (arith, sorted (i - 1) (j - 1) (omega arith) (omega arith))
      ]
    ]
