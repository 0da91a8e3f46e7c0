-- ===== src/Atomic/Spinlock/Exclusion.antt =====
-- Mutual exclusion of a word with one lock bit, although `btr` is not atomic.
use visual_os.Base.{
  ℕ, ◌≡◌, ◌≢◌, refl, sym, true, false, inl, inr, arith, ◌==◌, Bool-cases, ◌⊎◌, ◌∙◌,
}
use visual_os.Atomic.{bt, bts}
use visual_os.Atomic.Laws.{bts-bt_self}
use visual_os.Atomic.Spinlock.{
  Pc, idle, waiting, holds, storing, Move, call, acquire, spin, read, store, System, Step, pick,
  Reach, here, next, owner, quiet,
}

-- What is known of a processor's place while `w` is the word.
abbrev Good : ℕ → ℕ → Pc → Type 0
Good b w idle = Unit
Good b w (waiting c) = c ≡ b
Good b w (holds c) = (c ≡ b) × (bt w b ≡ true)
Good b w (storing c v) = (c ≡ b) × (v ≡ w) × (bt w b ≡ true)

record Inv (b : ℕ) (s : System) : Type 0 where
  good : (i : ℕ) → Good b s.word (s.pc i)
  unique : (i j : ℕ) → owner (s.pc i) ≡ true → owner (s.pc j) ≡ true → i ≡ j

module _ (b w : ℕ) where
  bit_of_owner : (p : Pc) → Good b w p → owner p ≡ true → bt w b ≡ true
  bit_of_owner idle g o = cc
  bit_of_owner (waiting c) g o = cc
  bit_of_owner (holds c) g o = g.1
  bit_of_owner (storing c v) g o = g.2

  -- A processor without the lock does not mind a change of the word.
  Good-free : (w' : ℕ) (p : Pc) → Good b w p → owner p ≡ false → Good b w' p
  Good-free w' idle g o = tt
  Good-free w' (waiting c) g o = g
  Good-free w' (holds c) g o = cc
  Good-free w' (storing c v) g o = cc

  -- The word stays, or the bit was off, or the owner gives the lock back.
  abbrev Effect : Pc → ℕ → Pc → Type 0
  Effect p w' p' =
      ((w' ≡ w) × (owner p' ≡ owner p))
      ⊎ ((bt w b ≡ false) × (owner p ≡ false))
      ⊎ ((owner p ≡ true) × (owner p' ≡ false))

  Move-Effect : {p : Pc} {w' : ℕ} {p' : Pc} → Move w p w' p' → Good b w p → Effect p w' p'
  unfolding bts
  Move-Effect (call c) g = inl (refl, refl)
  Move-Effect (acquire e) g = inr (inl (ground arith, refl))
  Move-Effect (spin e) g = inl (ground arith, refl)
  Move-Effect read g = inl (refl, refl)
  Move-Effect (store e) g = inr (inr (refl, refl))

  Move-Good :
      {p : Pc} {w' : ℕ} {p' : Pc}
      → Move w p w' p'
      → ((c : ℕ) → p' ≡ waiting c → c ≡ b)
      → Good b w p
      → Good b w' p'
  Move-Good (call c) only g = only c refl
  Move-Good (acquire {b = c} {w'} e) only g = (g, ground (arith, bts-bt_self w b))
  Move-Good (spin e) only g = g
  Move-Good read only g = (g.0, refl, g.1)
  Move-Good (store e) only g = tt

  -- The other processors: `q` at another index, with at most one owner among the two.
  Move-frame :
      (p : Pc) (w' : ℕ) (p' q : Pc)
      → Effect p w' p'
      → Good b w q
      → (owner p ≡ true → owner q ≡ false)
      → Good b w' q
  Move-frame p w' p' q (inl (e, o)) g apart = rw e g
  Move-frame p w' p' q (inr (inl (off, o))) g apart =
      Good-free w' q g (ground (arith, bit_of_owner q g))
  Move-frame p w' p' q (inr (inr (o, o'))) g apart = Good-free w' q g (apart o)

  -- If the moved processor owns the lock now, no other one does.
  Move-apart :
      (p : Pc) (w' : ℕ) (p' q : Pc)
      → Effect p w' p'
      → Good b w q
      → (owner p ≡ true → owner q ≡ false)
      → owner p' ≡ true
      → owner q ≡ false
  Move-apart p w' p' q (inl (e, o)) g apart h = apart (sym o ∙ h)
  Move-apart p w' p' q (inr (inl (off, o))) g apart h = ground (arith, bit_of_owner q g)
  Move-apart p w' p' q (inr (inr (o, o'))) g apart h = cc

module _ (b : ℕ) where
  others :
      {s : System} → Inv b s → (i j : ℕ) → i ≢ j → owner (s.pc i) ≡ true → owner (s.pc j) ≡ false
  others {s} v i j ne oi = elim (Bool-cases (owner (s.pc j))) [
    | inl oj ↦ absurd (ne (v.unique i j oi oj))
    | inr oj ↦ oj
  ]

  Step-Inv : {s t : System} → Step (λ c. c ≡ b) s t → Inv b s → Inv b t
  Step-Inv {s} (pick i {w'} {p'} mv only) v = record {
    good = λ j. elim (Bool-cases (i == j)) [
      | inl e ↦ rw e (Move-Good b s.word mv only (v.good i))
      | inr ne ↦
          rw ne
            (Move-frame b s.word (s.pc i) w' p' (s.pc j) effect (v.good j) (apart j (ground arith)))
    ];
    unique = λ k j ok oj. ground (arith, v.unique k j, alone k, alone j);
  }
    where
      effect : Effect b s.word (s.pc i) w' p'
      effect = Move-Effect b s.word mv (v.good i)

      apart : (j : ℕ) → i ≢ j → owner (s.pc i) ≡ true → owner (s.pc j) ≡ false
      apart j ne = others v i j ne

      alone : (j : ℕ) → i ≢ j → owner p' ≡ true → owner (s.pc j) ≡ false
      alone j ne = Move-apart b s.word (s.pc i) w' p' (s.pc j) effect (v.good j) (apart j ne)

  Reach-Inv : {s t : System} → Reach (λ c. c ≡ b) s t → Inv b s → Inv b t
  Reach-Inv here v = v
  Reach-Inv (next r st) v = Step-Inv st (Reach-Inv r v)

quiet-Inv : (b w : ℕ) → Inv b (quiet w)
quiet-Inv b w = record { good = λ i. tt; unique = λ i j h. cc }

-- Where every processor locks and unlocks only bit `b` of a word, two processors never own the lock
-- together, and while one owns it the bit is on. This holds from every word with no processor in
-- the two functions, although the `btr` of `atomic_unlock` is no atomic operation.
pub mutual_exclusion :
    (b w : ℕ) {t : System}
    → Reach (λ c. c ≡ b) (quiet w) t
    → ((i j : ℕ) → owner (t.pc i) ≡ true → owner (t.pc j) ≡ true → i ≡ j)
      × ((i : ℕ) → owner (t.pc i) ≡ true → bt t.word b ≡ true)
mutual_exclusion b w {t} r = (v.unique, λ i. bit_of_owner b t.word (t.pc i) (v.good i))
  where
    v : Inv b t
    v = Reach-Inv b r (quiet-Inv b w)
