-- ===== src/Scheduler/Ring.antt =====
-- A queue as a ring: `seq 0`, …, `seq (n - 1)` are its nodes in order.
use native.Mathlib.Decide.{ℕ_discrete}
use visual_os.Base.{ℕ, ◌+◌, ◌-◌, ◌<◌, ◌≡◌, ◌≢◌, ltb, ◌==◌, if◌then◌else◌, arith, ap, sym, ◌∙◌}
use visual_os.Scheduler.State.{SchedulerNode}

-- The place after place `i` of `n`.
abbrev pub following : ℕ → ℕ → ℕ
following n i = if i + 1 == n then 0 else i + 1

pub record Ring (nodes : ℕ → SchedulerNode) (n : ℕ) (seq : ℕ → ℕ) : Type 0 where
  pub distinct : (i j : ℕ) → i < n → j < n → seq i ≡ seq j → i ≡ j
  pub next : (i : ℕ) → i < n → (nodes (seq i)).next ≡ seq (following n i)
  pub previous : (i : ℕ) → i < n → (nodes (seq (following n i))).previous ≡ seq i

-- The sequence with a node behind its `n` first ones, and the sequence from its `k`-th node on.
abbrev pub append_at : ℕ → ℕ → (ℕ → ℕ) → ℕ → ℕ
append_at n node seq i = if i == n then node else seq i

abbrev pub place : ℕ → ℕ → ℕ → ℕ
place n k i = if ltb (i + k) n then i + k else i + k - n

abbrev pub rotate : ℕ → ℕ → (ℕ → ℕ) → ℕ → ℕ
rotate n k seq i = seq (place n k i)

module _ (nodes nodes' : ℕ → SchedulerNode) (n : ℕ) (seq : ℕ → ℕ) (r : Ring nodes n seq) where
  -- Nodes outside the ring do not matter.
  pub Ring-frame :
      ((i : ℕ) → i < n → (nodes' (seq i)).next ≡ (nodes (seq i)).next)
      → ((i : ℕ) → i < n → (nodes' (seq i)).previous ≡ (nodes (seq i)).previous)
      → Ring nodes' n seq
  Ring-frame a b = record {
    distinct = r.distinct;
    next = λ i h. ground (arith, a i h, r.next i h);
    previous = λ i h. ground (arith, b (following n i) (ground arith), r.previous i h);
  }

  -- A node is put between the last and the first.
  pub Ring-append :
      (node : ℕ)
      → 0 < n
      → ((i : ℕ) → i < n → seq i ≢ node)
      → ((p : ℕ)
          → (nodes' p).next
            ≡ (if p == seq (n - 1) then node else if p == node then seq 0 else (nodes p).next))
      → ((p : ℕ)
          → (nodes' p).previous
            ≡ (if p == seq 0 then node else if p == node then seq (n - 1) else (nodes p).previous))
      → Ring nodes' (n + 1) (append_at n node seq)
  Ring-append node some_node out a b = record {
    distinct = λ i j hi hj e. ground (arith, r.distinct i j, out i, out j);
    next = λ i h. elim (ℕ_discrete i n) [
      | yes e ↦ rw e (ground (arith, a node, out (n - 1)))
      | no ne ↦ elim (ℕ_discrete (i + 1) n) [
        | yes e ↦ let last : i ≡ n - 1 = omega arith in rw last (ground (arith, a (seq (n - 1))))
        | no ne' ↦ ground (arith, a (seq i), out i, r.next i, r.distinct i (n - 1))
      ]
    ];
    previous = λ i h. elim (ℕ_discrete i n) [
      | yes e ↦ rw e (ground (arith, b (seq 0)))
      | no ne ↦ elim (ℕ_discrete (i + 1) n) [
        | yes e ↦ let last : i ≡ n - 1 = omega arith in rw last (ground (arith, b node, out 0))
        | no ne' ↦ ground (arith, b (seq (i + 1)), out (i + 1), r.previous i, r.distinct (i + 1) 0)
      ]
    ];
  }

  -- The last node is taken out.
  pub Ring-drop_last :
      1 < n
      → ((p : ℕ) → (nodes' p).next ≡ (if p == seq (n - 2) then seq 0 else (nodes p).next))
      → ((p : ℕ) → (nodes' p).previous ≡ (if p == seq 0 then seq (n - 2) else (nodes p).previous))
      → Ring nodes' (n - 1) seq
  Ring-drop_last more a b = record {
    distinct = λ i j hi hj e. r.distinct i j (omega arith) (omega arith) e;
    next = λ i h. elim (ℕ_discrete (i + 2) n) [
      | yes e ↦ let last : i ≡ n - 2 = omega arith in rw last (ground (arith, a (seq (n - 2))))
      | no ne ↦ ground (arith, a (seq i), r.next i, r.distinct i (n - 2))
    ];
    previous = λ i h. elim (ℕ_discrete (i + 2) n) [
      | yes e ↦ let last : i ≡ n - 2 = omega arith in rw last (ground (arith, b (seq 0)))
      | no ne ↦ ground (arith, b (seq (i + 1)), r.previous i, r.distinct (i + 1) 0)
    ];
  }

module _ (nodes : ℕ → SchedulerNode) (n k : ℕ) (seq : ℕ → ℕ) (inside : k < n) where
  place-lt : (i : ℕ) → i < n → place n k i < n
  place-lt i h = ground arith

  place-following : (i : ℕ) → i < n → place n k (following n i) ≡ following n (place n k i)
  place-following i h = ground arith

  -- A ring can be read from any of its nodes on.
  pub Ring-rotate : Ring nodes n seq → Ring nodes n (rotate n k seq)
  Ring-rotate r = record {
    distinct = λ i j hi hj e.
        let same : place n k i ≡ place n k j =
          r.distinct (place n k i) (place n k j) (ground arith) (ground arith) e in
        ground arith;
    next = λ i h. r.next (place n k i) (place-lt i h) ∙ ap seq (sym (place-following i h));
    previous = λ i h.
        let there : (nodes (seq (following n (place n k i)))).previous ≡ seq (place n k i) =
          r.previous (place n k i) (place-lt i h) in
        rw (place-following i h) there;
  }

-- A node alone.
pub Ring-single :
    (nodes : ℕ → SchedulerNode) (node : ℕ)
    → (nodes node).next ≡ node
    → (nodes node).previous ≡ node
    → (seq : ℕ → ℕ) → seq 0 ≡ node
    → Ring nodes 1 seq
Ring-single nodes node a b seq e = record {
  distinct = λ i j hi hj f. omega arith;
  next = λ i h. let z : i ≡ 0 = omega arith in rw z (ground (arith, e));
  previous = λ i h. let z : i ≡ 0 = omega arith in rw z (ground (arith, e));
}
