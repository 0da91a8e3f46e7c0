-- ===== src/Acpi/Search.antt =====
-- `acpi_get_table` returns the first table of the signature, if there is one.
use visual_os.Base.{
  ℕ, zero, suc, ◌+◌, ◌-◌, ◌*◌, ◌/◌, ◌%◌, ◌^◌, ◌<◌, ◌≤◌, ◌≡◌, refl, Bool, true, false, arith, ◌∙◌,
  inl, inr, ◌⊎◌, Bool-cases,
}
use native.Mathlib.Decide.{ℕ_discrete}
use visual_os.Acpi.{Memory, null, sdt_header_size, signature_loop, table_loop, acpi_get_table}

-- All four bytes are equal.
abbrev pub Matches : (ℕ → ℕ) → (ℕ → ℕ) → Type 0
Matches header signature =
    (header 0 ≡ signature 0)
    × (header 1 ≡ signature 1)
    × (header 2 ≡ signature 2)
    × (header 3 ≡ signature 3)

abbrev four : (ℕ → ℕ) → (ℕ → ℕ) → Bool
four header signature = signature_loop 4 0 header signature

four_sound : (h s : ℕ → ℕ) → four h s ≡ true → Matches h s
unfolding signature_loop
four_sound h s e = (ground arith, ground arith, ground arith, ground arith)

four_complete : (h s : ℕ → ℕ) → Matches h s → four h s ≡ true
unfolding signature_loop
four_complete h s (a, b, c, d) = ground arith

-- Entry `k` of the XSDT at `xsdt`.
abbrev pub table_at : Memory → ℕ → ℕ → ℕ
table_at memory xsdt k = memory.word (xsdt + sdt_header_size + 8 * k)

-- The outcome of a search from entry `from` up to entry `to`.
pub record First (memory : Memory) (xsdt : ℕ) (signature : ℕ → ℕ) (from to r k : ℕ) : Type 0 where
  pub after : from ≤ k
  pub inside : k < to
  pub result : r ≡ table_at memory xsdt k
  pub matches : Matches (memory.signature (table_at memory xsdt k)) signature
  pub none_before :
      (j : ℕ) → from ≤ j → j < k → ¬ Matches (memory.signature (table_at memory xsdt j)) signature

pub record Absent (memory : Memory) (xsdt : ℕ) (signature : ℕ → ℕ) (from to r : ℕ) : Type 0 where
  pub result : r ≡ null
  pub none :
      (j : ℕ) → from ≤ j → j < to → ¬ Matches (memory.signature (table_at memory xsdt j)) signature

abbrev pub Outcome : Memory → ℕ → (ℕ → ℕ) → ℕ → ℕ → ℕ → Type 0
Outcome memory xsdt signature from to r =
    ((k : ℕ) × First memory xsdt signature from to r k) ⊎ Absent memory xsdt signature from to r

loop-found :
    (rounds k : ℕ) (memory : Memory) (xsdt : ℕ) (s : ℕ → ℕ)
    → four (memory.signature (table_at memory xsdt k)) s ≡ true
    → table_loop (suc rounds) (8 * k) memory xsdt s ≡ table_at memory xsdt k
unfolding table_loop
loop-found rounds k memory xsdt s h = rw (h, table_loop) refl

loop-next :
    (rounds k : ℕ) (memory : Memory) (xsdt : ℕ) (s : ℕ → ℕ)
    → four (memory.signature (table_at memory xsdt k)) s ≡ false
    → table_loop (suc rounds) (8 * k) memory xsdt s ≡ table_loop rounds (8 * (k + 1)) memory xsdt s
unfolding table_loop
loop-next rounds k memory xsdt s h =
    let next : 8 * k + 8 ≡ 8 * (k + 1) = omega arith in rw (h, table_loop, next) refl

table_loop-Outcome :
    (rounds k : ℕ) (memory : Memory) (xsdt : ℕ) (s : ℕ → ℕ)
    → Outcome memory xsdt s k (k + rounds) (table_loop rounds (8 * k) memory xsdt s)
table_loop-Outcome zero k memory xsdt s =
    inr (record { result = unfold table_loop in refl; none = λ j a b. absurd (omega arith) })
table_loop-Outcome (suc rounds) k memory xsdt s =
    elim (Bool-cases (four (memory.signature (table_at memory xsdt k)) s)) [
      | inl yes_here ↦ inl (
        k,
        record {
          after = omega arith;
          inside = omega arith;
          result = loop-found rounds k memory xsdt s yes_here;
          matches = four_sound _ s yes_here;
          none_before = λ j a b. absurd (omega arith);
        },
      )
      | inr not_here ↦
          let here : ¬ Matches (memory.signature (table_at memory xsdt k)) s = λ m. absurd (
            ground
              (arith, not_here, four_complete (memory.signature (table_at memory xsdt k)) s m)) in
          let step = loop-next rounds k memory xsdt s not_here in
          elim (table_loop-Outcome rounds (k + 1) memory xsdt s) [
            | inl (f, r) ↦ inl (
              f,
              record {
                after = omega (arith, r.after);
                inside = omega (arith, r.inside);
                result = step ∙ r.result;
                matches = r.matches;
                none_before = λ j a b. elim (ℕ_discrete j k) [
                  | yes e ↦ rw e here
                  | no ne ↦ r.none_before j (omega arith) b
                ];
              },
            )
            | inr r ↦ inr (record {
              result = step ∙ r.result;
              none = λ j a b. elim (ℕ_discrete j k) [
                | yes e ↦ rw e here
                | no ne ↦ r.none j (omega arith) (omega arith)
              ];
            })
          ]
    ]

-- For an XSDT whose length, below 2 ^ 32, is that of its header and of `n` entries: `acpi_get_table` returns the
-- first entry with the signature, or `NULL` if no entry has it.
pub acpi_get_table-Outcome :
    (memory : Memory) (xsdt n : ℕ) (signature : ℕ → ℕ)
    → sdt_header_size + 8 * n < 2 ^ 32
    → Outcome memory xsdt signature 0 n
        (acpi_get_table memory xsdt (sdt_header_size + 8 * n) signature)
unfolding acpi_get_table
acpi_get_table-Outcome memory xsdt n signature few =
    let rounds : ((sdt_header_size + 8 * n + 2 ^ 64 - sdt_header_size) % 2 ^ 64 + 7) / 8 ≡ n =
      omega arith in
    let whole : 0 + n ≡ n = omega arith in
    rw rounds (rw whole at (table_loop-Outcome n 0 memory xsdt signature))
