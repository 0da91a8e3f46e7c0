-- ===== src/Paging/SetBit.antt =====
-- `SET_BIT` of src/kernel/kernel.h is `bts` or `btr` of one bit.
use native.Mathlib.Nat.{pow-succ', one-le-pow}
use visual_os.Base.{
  ℕ, zero, suc, ◌+◌, ◌-◌, ◌*◌, ◌/◌, ◌%◌, ◌^◌, ◌<◌, ◌≡◌, refl, Bool, true, false, if◌then◌else◌,
  ◌==◌, bit_and, bit_xor, arith, ap, ◌∙◌, Bool-cases, inl, inr, u64_mod,
}
use visual_os.Base.Bits.{bit_and_step, bit_xor_step, bit_xor-even, bit_xor-small, bit_and-ones}
use visual_os.Atomic.{bt, bts, btr}
use visual_os.Atomic.Laws.{bt-suc, bts-suc, btr-suc}
use visual_os.Paging.{set_bit}

-- `SET_BIT` with `value` cut to the bits of `mask`.
abbrev put : (mask n bit : ℕ) → ℕ
put mask n bit = bit_xor n (bit_and (bit_xor mask n) (2 ^ bit))

put-suc : (mask n bit : ℕ) → put mask n (suc bit) ≡ put (mask / 2) (n / 2) bit * 2 + n % 2
put-suc mask n bit =
    let half : bit_xor mask n / 2 ≡ bit_xor (mask / 2) (n / 2) =
      omega (arith, bit_xor_step mask n) in
    let power : 2 ^ suc bit / 2 ≡ 2 ^ bit = omega (arith, pow-succ' 2 bit) in
    let low : 2 ^ suc bit % 2 ≡ 0 = omega (arith, pow-succ' 2 bit) in
    let chosen : bit_and (bit_xor mask n) (2 ^ suc bit)
        ≡ bit_and (bit_xor (mask / 2) (n / 2)) (2 ^ bit) * 2 =
      omega (arith, rw (half, power) at (bit_and_step (bit_xor mask n) (2 ^ suc bit)), low) in
    ap (λ y. bit_xor n y) chosen ∙ bit_xor-even n _

put-zero : (mask n : ℕ) → put mask n 0 ≡ (if mask % 2 == 1 then n / 2 * 2 + 1 else n / 2 * 2)
put-zero mask n =
    let one : bit_and (bit_xor mask n) 1 ≡ bit_xor mask n % 2 = bit_and-ones 1 (bit_xor mask n) in
    let low : bit_xor mask n % 2 ≡ (mask % 2 + n % 2) % 2 = omega (arith, bit_xor_step mask n) in
    rw one (bit_xor-small n (bit_xor mask n % 2) (omega arith) ∙ ground (arith, low))

-- `SET_BIT` writes the bit that the mask has.
put_lem : (mask n bit : ℕ) → put mask n bit ≡ (if bt mask bit then (bts n bit).0 else (btr n bit).0)
put_lem mask n zero = put-zero mask n ∙ unfold bt bts btr in ground arith
put_lem mask n (suc bit) =
    put-suc mask n bit
    ∙ ap (λ x. x * 2 + n % 2) (put_lem (mask / 2) (n / 2) bit)
    ∙ elim (Bool-cases (bt (mask / 2) bit)) [
      | inl on ↦ rw (bt-suc mask bit, on, bts-suc n bit) refl
      | inr off ↦ rw (bt-suc mask bit, off, btr-suc n bit) refl
    ]

bt-ones : (w b : ℕ) → b < w → bt (2 ^ w - 1) b ≡ true
bt-ones zero b l = absurd (omega arith)
bt-ones (suc w) zero l = unfold bt in ground (arith, pow-succ' 2 w, one-le-pow w 2)
bt-ones (suc w) (suc b) l =
    let half : (2 ^ suc w - 1) / 2 ≡ 2 ^ w - 1 = omega (arith, pow-succ' 2 w, one-le-pow w 2) in
    rw (bt-suc (2 ^ suc w - 1) b, half) (bt-ones w b (omega arith))

bt-none : (b : ℕ) → bt 0 b ≡ false
unfolding bt
bt-none b = ground arith

-- `SET_BIT` is the instruction `bts` or the instruction `btr`, as its value says.
pub set_bit-btx :
    (n bit : ℕ) (value : Bool)
    → bit < 64
    → set_bit n bit value ≡ (if value then (bts n bit).0 else (btr n bit).0)
unfolding set_bit
set_bit-btx n bit true l = put_lem (u64_mod - 1) n bit ∙ rw (bt-ones 64 bit l) refl
set_bit-btx n bit false l = put_lem 0 n bit ∙ rw (bt-none bit) refl
