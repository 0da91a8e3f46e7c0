-- ===== src/Ioapic/FromIsrs.antt =====
-- Which entries `ioapic_set_from_isrs` leaves.
use native.Mathlib.Decide.{ℕ_discrete, dec_lt}
use visual_os.Base.{
  ◌%◌, ◌^◌, ◌≢◌, ℕ, zero, suc, ◌+◌, ◌-◌, ◌<◌, ◌≤◌, ◌≡◌, refl, Bool, true, false, not, ◌==◌, ◌&&◌,
  leb, if◌then◌else◌, arith, ◌∙◌, Bool-cases, inl, inr, sub64, for_range, for_range-zero,
  for_range-suc,
}
use visual_os.Ioapic.{Device, IoapicRedirectionEntry, ioapic_get_redirection_entry}
use visual_os.Ioapic.Entry.{IsEntry, get-set_redirection_entry}
use visual_os.Ioapic.Setup.{
  MadtInterruptSourceOverride, isr_exists, overridden, isr_entry, set_from_isr,
  ioapic_set_from_isrs,
}

isr_entry-IsEntry : (n : ℕ) → IsEntry (isr_entry n)
unfolding isr_entry
isr_entry-IsEntry n = record {
  vector = omega arith;
  delivery_mode = omega arith;
  destination_mode = omega arith;
  delivery_status = omega arith;
  pin_polarity = omega arith;
  remote_irr = omega arith;
  trigger_mode = omega arith;
  mask = omega arith;
  destination = omega arith;
}

-- The entry that an ISR is to have: its own number as the vector, delivered with low priority to the
-- physical destination 0, active high, on the edge and not masked.
abbrev pub own_entry : ℕ → IoapicRedirectionEntry
own_entry n = record {
  vector = n;
  delivery_mode = 1;
  destination_mode = 0;
  delivery_status = 0;
  pin_polarity = 0;
  remote_irr = 0;
  trigger_mode = 0;
  mask = 0;
  destination = 0;
}

-- What is read from entry `j`, before and after.
pub record ReadsAs (isos : ℕ → MadtInterruptSourceOverride) (isos_num : ℕ) (handlers : ℕ → ℕ)
    (j : ℕ) (old new : IoapicRedirectionEntry) : Type 0 where
  pub own :
      handlers (j + 32) ≢ 0
      → ((i : ℕ) → i < isos_num → (isos i).source ≢ j)
      → new ≡ own_entry (j + 32)
  pub redirected : (i : ℕ) → i < isos_num → (isos i).source ≡ j → new ≡ old
  pub unhandled : handlers (j + 32) ≡ 0 → new ≡ old

-- The search of an override finds one exactly if there is one.
overridden-some :
    (rounds k i : ℕ) (isos : ℕ → MadtInterruptSourceOverride) (j : ℕ)
    → k ≤ i
    → i < k + rounds
    → (isos i).source ≡ j
    → overridden rounds k isos (j + 32) ≡ true
unfolding overridden
overridden-some zero k i isos j a b e = absurd (omega arith)
overridden-some (suc rounds) k i isos j a b e = elim (Bool-cases ((isos k).source + 32 == j + 32)) [
  | inl here ↦ rw (here, overridden) refl
  | inr not_here ↦ elim (ℕ_discrete i k) [
    | yes same ↦ absurd (ground (arith, rw same at e, not_here))
    | no ne ↦
        rw (not_here, overridden)
          (overridden-some rounds (k + 1) i isos j (omega arith) (omega arith) e)
  ]
]

overridden-none :
    (rounds k : ℕ) (isos : ℕ → MadtInterruptSourceOverride) (j : ℕ)
    → ((i : ℕ) → k ≤ i → i < k + rounds → (isos i).source ≢ j)
    → overridden rounds k isos (j + 32) ≡ false
unfolding overridden
overridden-none zero k isos j all = refl
overridden-none (suc rounds) k isos j all =
    let not_here : ((isos k).source + 32 == j + 32) ≡ false =
      ground (arith, all k (omega arith) (omega arith)) in
    rw (not_here, overridden)
      (overridden-none rounds (k + 1) isos j (λ i a b. all i (omega arith) (omega arith)))

module _ (isos : ℕ → MadtInterruptSourceOverride) (isos_num : ℕ) (handlers : ℕ → ℕ)
    (few : (n : ℕ) → 152 ≤ n → isr_exists handlers n ≡ false) where
  -- The ISR has a handler, and no override has its source.
  abbrev wanted : ℕ → Bool
  wanted n = isr_exists handlers n && not (overridden isos_num 0 isos n)

  abbrev read : Device → ℕ → IoapicRedirectionEntry
  read d j = (ioapic_get_redirection_entry d j).0

  body-read :
      (n j : ℕ) (d : Device)
      → 32 ≤ n
      → n < 256
      → j < 120
      → read (set_from_isr isos isos_num handlers n d) j
        ≡ (if (n == j + 32) && wanted n then isr_entry n else read d j)
  unfolding set_from_isr
  body-read n j d low high l = elim (Bool-cases (isr_exists handlers n)) [
    | inr no_handler ↦ rw no_handler (ground arith)
    | inl handled ↦ elim (Bool-cases (overridden isos_num 0 isos n)) [
      | inl over ↦ rw (handled, over) (ground arith)
      | inr own ↦
          let fits : n < 152 = elim (dec_lt n 152) [
            | yes below ↦ below
            | no above ↦ absurd (cc (handled, few n (omega arith)))
          ] in
          let at : sub64 n 32 ≡ n - 32 = omega arith in
          rw (handled, own, at)
            (get-set_redirection_entry d (n - 32) j (isr_entry n) (isr_entry-IsEntry n)
                (omega arith) l
              ∙ ground arith)
    ]
  ]

  rounds-read :
      (rounds n j : ℕ) (d : Device)
      → 32 ≤ n
      → n + rounds ≡ 256
      → j < 120
      → read (for_range (set_from_isr isos isos_num handlers) rounds n d) j
        ≡ (if leb n (j + 32) && wanted (j + 32) then isr_entry (j + 32) else read d j)
  rounds-read zero n j d low e l =
      rw (for_range-zero (set_from_isr isos isos_num handlers) n d) (ground arith)
  rounds-read (suc rounds) n j d low e l =
      let rest =
        rounds-read rounds (n + 1) j (set_from_isr isos isos_num handlers n d) (omega arith)
          (omega arith) l in
      let here = body-read n j d low (omega arith) l in
      rw (for_range-suc (set_from_isr isos isos_num handlers) rounds n d, rest, here)
        (elim (ℕ_discrete n (j + 32)) [ yes at ↦ rw at (ground arith) | no ne ↦ ground arith ])

  raw :
      (j : ℕ) (d : Device)
      → j < 120
      → (ioapic_get_redirection_entry (ioapic_set_from_isrs isos isos_num handlers d) j).0 ≡ (
          if isr_exists handlers (j + 32) && not (overridden isos_num 0 isos (j + 32))
          then isr_entry (j + 32)
          else (ioapic_get_redirection_entry d j).0)
  unfolding ioapic_set_from_isrs
  raw j d l =
      let low : leb 32 (j + 32) ≡ true = ground arith in
      rounds-read 224 32 j d (omega arith) refl l ∙ rw low refl

-- Where no handler has a number above 151: `ioapic_set_from_isrs` gives each ISR from 32 on that has a
-- handler and is the source of no override the entry of its own, with its number as the vector,
-- delivered with low priority, active high, on the edge and not masked; it leaves what is read from the
-- entry at the source of an override, and from one without a handler.
pub set_from_isrs-read :
    (isos : ℕ → MadtInterruptSourceOverride) (isos_num : ℕ) (handlers : ℕ → ℕ)
    → ((n : ℕ) → 152 ≤ n → handlers n ≡ 0)
    → (j : ℕ) (d : Device) → j < 120
    → ReadsAs isos isos_num handlers j
        (ioapic_get_redirection_entry d j).0
        (ioapic_get_redirection_entry (ioapic_set_from_isrs isos isos_num handlers d) j).0
unfolding isr_exists isr_entry
set_from_isrs-read isos isos_num handlers few j d l =
    let all =
      raw isos isos_num handlers (λ n h. let e : handlers n ≡ 0 = few n h in rw e refl) j d l in
    record {
      own = λ handled free.
          let on : (handlers (j + 32) == 0) ≡ false = ground (arith, handled) in
          let none = overridden-none isos_num 0 isos j (λ i a b. free i (omega arith)) in
          let vector : (j + 32) % 2 ^ 8 ≡ j + 32 = omega arith in rw (on, none, vector) at all;
      redirected = λ i b e.
          let some = overridden-some isos_num 0 i isos j (omega arith) (omega arith) e in
          all ∙ rw some (ground arith);
      unhandled = λ e. all ∙ rw e refl;
    }
