-- ===== src/LocalApic/Lints.antt =====
-- What `local_apic_start_lints` makes of the registers.
use native.Mathlib.Decide.{ℕ_discrete}
use visual_os.Base.Bits.{bit_and_split, bit_and-ones, bit_and-zero}
use visual_os.Base.{
  bit_and, ◌*◌, ◌/◌, ℕ, zero, suc, ◌+◌, ◌%◌, ◌^◌, ◌<◌, ◌≡◌, ◌≢◌, refl, Bool, true, false, ◌==◌,
  ◌&&◌, ◌||◌, if◌then◌else◌, bit_or, arith, ap, sym, ◌∙◌, ◌⊎◌, inl, inr, Bool-cases, for_range,
  for_range-zero, for_range-suc, for_range-keeps,
}
use visual_os.Atomic.{bt}
use visual_os.LocalApic.{
  MadtNonMaskableInterrupt, nmi_entry, set_lint, start_timer, local_apic_get_id,
  local_apic_create_register_value, local_apic_set_register, local_apic_start_lints,
  reg_offset_spurious_int_vector, reg_offset_lvt_timer, reg_offset_lvt_lint0, reg_offset_lvt_lint1,
  reg_offset_initial_count, timer_ticks_default,
}
use visual_os.LocalApic.Bits.{bit_or-bt, bit_and-bt, mod-bt}

-- The register of a local interrupt pin.
abbrev pub lvt : ℕ → ℕ
lvt pin = if pin == 0 then reg_offset_lvt_lint0 else reg_offset_lvt_lint1

-- The interrupt is for the processor of the ID or, with the ID 0xff, for all, and comes in at the pin.
abbrev pub comes_in : (id pin : ℕ) → MadtNonMaskableInterrupt → Bool
comes_in id pin nmi = (nmi.local_apic_id == 0xff || nmi.local_apic_id == id) && nmi.lint == pin

-- The entry of a pin, by the processor's layout: vector 255, delivered as a non-maskable interrupt (4 in
-- bits 8 to 10), triggered by the level (bit 15) where bit 3 of the flags is on, and masked (bit 16).
abbrev pub pin_entry : MadtNonMaskableInterrupt → ℕ
pin_entry nmi = 255 + 4 * 2 ^ 8 + nmi.flags / 2 ^ 3 % 2 * 2 ^ 15 + 1 * 2 ^ 16

bit_and-eight : (n : ℕ) → bit_and n 8 ≡ n / 2 ^ 3 % 2 * 2 ^ 3
bit_and-eight n = ground (
  arith,
  bit_and_split 3 (n / 2 ^ 3) 1 (n % 2 ^ 3) 0,
  bit_and-ones 1 (n / 2 ^ 3),
  bit_and-zero (n % 2 ^ 3),
)

nmi_entry-pin_entry : (nmi : MadtNonMaskableInterrupt) → nmi_entry nmi % 2 ^ 32 ≡ pin_entry nmi
unfolding nmi_entry local_apic_create_register_value
nmi_entry-pin_entry nmi =
    let eight = bit_and-eight nmi.flags in
    elim (Bool-cases (bit_and nmi.flags 8 == 0)) [
      | inl edge ↦
          let off : nmi.flags / 2 ^ 3 % 2 ≡ 0 = ground (arith, eight, edge) in rw (edge, off) refl
      | inr level ↦
          let on : nmi.flags / 2 ^ 3 % 2 ≡ 1 = ground (arith, eight, level) in rw (level, on) refl
    ]

set_lint-at :
    (id pin : ℕ) (nmi : MadtNonMaskableInterrupt) (registers : ℕ → ℕ)
    → pin < 2
    → set_lint id nmi registers (lvt pin)
      ≡ (if comes_in id pin nmi then nmi_entry nmi % 2 ^ 32 else registers (lvt pin))
unfolding set_lint
set_lint-at id pin nmi registers l = ground arith

set_lint-other :
    (id o : ℕ) (nmi : MadtNonMaskableInterrupt) (registers : ℕ → ℕ)
    → o ≢ reg_offset_lvt_lint0
    → o ≢ reg_offset_lvt_lint1
    → set_lint id nmi registers o ≡ registers o
unfolding set_lint
set_lint-other id o nmi registers a b = ground arith

-- The register of a pin has the entry of the last interrupt that comes in there, or its old value if
-- there is none.
pub record Last (id pin num : ℕ) (nmis : ℕ → MadtNonMaskableInterrupt) (value j : ℕ) : Type 0 where
  pub inside : j < num
  pub here : comes_in id pin (nmis j) ≡ true
  pub later : (m : ℕ) → j < m → m < num → comes_in id pin (nmis m) ≡ false
  pub entry : value ≡ pin_entry (nmis j)

abbrev pub PinSet : (id pin num : ℕ) → (ℕ → MadtNonMaskableInterrupt) → (old value : ℕ) → Type 0
PinSet id pin num nmis old value =
    ((j : ℕ) × Last id pin num nmis value j)
    ⊎ (((m : ℕ) → m < num → comes_in id pin (nmis m) ≡ false) × (value ≡ old))

module _ (id : ℕ) (nmis : ℕ → MadtNonMaskableInterrupt) where
  abbrev body : ℕ → (ℕ → ℕ) → ℕ → ℕ
  body i = set_lint id (nmis i)

  lints-other :
      (rounds i o : ℕ) (registers : ℕ → ℕ)
      → o ≢ reg_offset_lvt_lint0
      → o ≢ reg_offset_lvt_lint1
      → for_range body rounds i registers o ≡ registers o
  lints-other rounds i o registers a b =
      for_range-keeps body (λ now. now o ≡ registers o)
        (λ j now same. set_lint-other id o (nmis j) now a b ∙ same) rounds i registers refl

  -- With the pin as it is after the first `i` rounds.
  lints-PinSet :
      (rounds i pin num old : ℕ) (registers : ℕ → ℕ)
      → pin < 2
      → i + rounds ≡ num
      → PinSet id pin i nmis old (registers (lvt pin))
      → PinSet id pin num nmis old (for_range body rounds i registers (lvt pin))
  lints-PinSet zero i pin num old registers l e so_far =
      let all : i ≡ num = omega arith in rw (for_range-zero body i registers, ← all) so_far
  lints-PinSet (suc rounds) i pin num old registers l e so_far =
      let at : body i registers (lvt pin) ≡ (
          if comes_in id pin (nmis i) then nmi_entry (nmis i) % 2 ^ 32 else registers (lvt pin)) =
        set_lint-at id pin (nmis i) registers l in
      let next : PinSet id pin (i + 1) nmis old (body i registers (lvt pin)) =
        elim (Bool-cases (comes_in id pin (nmis i))) [
          | inl comes ↦ inl (
            i,
            record {
              inside = omega arith;
              here = comes;
              later = λ m a b. absurd (omega arith);
              entry = at ∙ rw comes (nmi_entry-pin_entry (nmis i));
            },
          )
          | inr passes ↦
              let same : body i registers (lvt pin) ≡ registers (lvt pin) = at ∙ rw passes refl in
              elim so_far [
                | inl (j, last) ↦ inl (
                  j,
                  record {
                    inside = omega (arith, last.inside);
                    here = last.here;
                    later = λ m a b. elim (ℕ_discrete m i) [
                      | yes is_i ↦ rw is_i passes
                      | no ne ↦ last.later m a (omega arith)
                    ];
                    entry = same ∙ last.entry;
                  },
                )
                | inr (none_yet, kept) ↦ inr (
                  λ m b. elim (ℕ_discrete m i) [
                    | yes is_i ↦ rw is_i passes
                    | no ne ↦ none_yet m (omega arith)
                  ],
                  same ∙ kept,
                )
              ]
        ] in
      rw (for_range-suc body rounds i registers)
        (lints-PinSet rounds (i + 1) pin num old (body i registers) l (omega arith) next)

start_timer-other :
    (o : ℕ) (registers : ℕ → ℕ)
    → o < 0x380
    → o ≢ reg_offset_lvt_timer
    → start_timer registers o ≡ registers o
unfolding start_timer
start_timer-other o registers a b = ground arith

-- The bits of the timer's register that keep their values.
abbrev pub timer_keeps : ℕ → Bool
timer_keeps k = bt 0xfffcef00 k

start_timer-timer :
    (k : ℕ) (registers : ℕ → ℕ)
    → k < 32
    → bt (start_timer registers reg_offset_lvt_timer) k
      ≡ (bt 0x20030 k || (bt (registers reg_offset_lvt_timer) k && timer_keeps k))
unfolding start_timer local_apic_create_register_value
start_timer-timer k registers l =
    mod-bt 32 k _ l
    ∙ bit_or-bt k 0x20030 _
    ∙ ap (λ b. bt 0x20030 k || b) (bit_and-bt k (registers reg_offset_lvt_timer) 0xfffcef00)

start_timer-count :
    (registers : ℕ → ℕ) → start_timer registers reg_offset_initial_count ≡ timer_ticks_default
unfolding start_timer
start_timer-count registers = ground arith

apart : (k : ℕ) → timer_keeps k ≡ true → bt 0x20030 k ≡ false
apart k kept =
    let both : (bt 0x20030 k && timer_keeps k) ≡ bt 0 k = sym (bit_and-bt k 0x20030 0xfffcef00) in
    let none_on : bt 0 k ≡ false = unfold bt in ground arith in ground (arith, both, none_on, kept)

-- What `local_apic_start_lints` leaves: the register of each pin, the controller switched on, and the
-- timer, unmasked and periodic, with its vector and its count.
pub record Started (nmis : ℕ → MadtNonMaskableInterrupt) (num : ℕ) (registers t : ℕ → ℕ)
    : Type 0 where
  pub pins :
      (pin : ℕ)
      → pin < 2
      → PinSet (registers 0x20 / 2 ^ 24 % 2 ^ 8) pin num nmis (registers (lvt pin)) (t (lvt pin))
  pub spurious :
      (k : ℕ)
      → k < 32
      → bt (t reg_offset_spurious_int_vector) k
        ≡ ((bt (registers reg_offset_spurious_int_vector) k || bt 39 k) || bt 0x100 k)
  pub enabled : bt (t reg_offset_spurious_int_vector) 8 ≡ true
  pub timer :
      (k : ℕ)
      → k < 32
      → bt (t reg_offset_lvt_timer) k
        ≡ (if timer_keeps k then bt (registers reg_offset_lvt_timer) k else bt 0x20030 k)
  pub unmasked : bt (t reg_offset_lvt_timer) 16 ≡ false
  pub periodic : bt (t reg_offset_lvt_timer) 17 ≡ true
  pub count : t reg_offset_initial_count ≡ timer_ticks_default

module _ (nmis : ℕ → MadtNonMaskableInterrupt) (num : ℕ) (registers : ℕ → ℕ) where
  abbrev enabled_registers : ℕ → ℕ
  enabled_registers =
      local_apic_set_register reg_offset_spurious_int_vector
        (bit_or (bit_or (registers reg_offset_spurious_int_vector) 39) 0x100) registers

  abbrev lints : ℕ → ℕ
  lints = for_range (body (local_apic_get_id registers) nmis) num 0 enabled_registers

  abbrev t : ℕ → ℕ
  t = local_apic_start_lints nmis num registers

  t-start : t ≡ start_timer lints
  unfolding local_apic_start_lints
  t-start = refl

  t-at : (o : ℕ) → t o ≡ start_timer lints o
  t-at o = ap (λ (f : ℕ → ℕ). f o) t-start

  t-spurious :
      (k : ℕ)
      → k < 32
      → bt (t reg_offset_spurious_int_vector) k
        ≡ ((bt (registers reg_offset_spurious_int_vector) k || bt 39 k) || bt 0x100 k)
  t-spurious k l =
      let value : t reg_offset_spurious_int_vector
          ≡ bit_or (bit_or (registers reg_offset_spurious_int_vector) 39) 0x100 % 2 ^ 32 =
        t-at reg_offset_spurious_int_vector
        ∙ start_timer-other reg_offset_spurious_int_vector lints (omega arith) (omega arith)
        ∙ lints-other (local_apic_get_id registers) nmis num 0 reg_offset_spurious_int_vector
            enabled_registers (omega arith) (omega arith) in
      rw value (
        mod-bt 32 k _ l
        ∙ bit_or-bt k _ 0x100
        ∙ ap (λ b. b || bt 0x100 k) (bit_or-bt k (registers reg_offset_spurious_int_vector) 39))

  t-timer :
      (k : ℕ)
      → k < 32
      → bt (t reg_offset_lvt_timer) k
        ≡ (if timer_keeps k then bt (registers reg_offset_lvt_timer) k else bt 0x20030 k)
  t-timer k l =
      let old : lints reg_offset_lvt_timer ≡ registers reg_offset_lvt_timer =
        lints-other (local_apic_get_id registers) nmis num 0 reg_offset_lvt_timer enabled_registers
          (omega arith) (omega arith) in
      let value : bt (t reg_offset_lvt_timer) k
          ≡ (bt 0x20030 k || (bt (registers reg_offset_lvt_timer) k && timer_keeps k)) =
        ap (λ w. bt w k) (t-at reg_offset_lvt_timer)
        ∙ start_timer-timer k lints l
        ∙ ap (λ w. bt 0x20030 k || (bt w k && timer_keeps k)) old in
      value ∙ elim (Bool-cases (timer_keeps k)) [
        | inl kept ↦ rw (kept, apart k kept) (ground (arith))
        | inr changed ↦ rw changed (ground arith)
      ]

  t-pins :
      (pin : ℕ)
      → pin < 2
      → PinSet (local_apic_get_id registers) pin num nmis (registers (lvt pin)) (t (lvt pin))
  t-pins pin l =
      let same : enabled_registers (lvt pin) ≡ registers (lvt pin) = ground arith in
      let value : t (lvt pin) ≡ lints (lvt pin) =
        t-at (lvt pin) ∙ start_timer-other (lvt pin) lints (ground arith) (ground arith) in
      rw value (
        lints-PinSet (local_apic_get_id registers) nmis num 0 pin num (registers (lvt pin))
          enabled_registers l (omega arith) (inr (λ m b. absurd (omega arith), same)))

  -- `local_apic_start_lints` gives each of the two pins the entry of the last non-maskable interrupt
  -- that comes in there and is for the processor of the ID in register 0x20 or, with the ID 0xff, for
  -- all: vector 255, delivered as a non-maskable interrupt, masked, triggered by the level where bit 3
  -- of the flags is on; and it leaves a pin without one as it was; it switches the controller
  -- on, and starts the timer: unmasked, periodic, with vector 48 and the default count, the other bits
  -- of its register kept.
  pub local_apic_start_lints-Started :
      Started nmis num registers (local_apic_start_lints nmis num registers)
  local_apic_start_lints-Started = record {
    pins = λ pin l. unfold local_apic_get_id in t-pins pin l;
    spurious = t-spurious;
    enabled = t-spurious 8 (omega arith) ∙ unfold bt in ground arith;
    timer = t-timer;
    unmasked = t-timer 16 (omega arith) ∙ unfold bt in refl;
    periodic = t-timer 17 (omega arith) ∙ unfold bt in refl;
    count = t-at reg_offset_initial_count ∙ start_timer-count lints;
  }
