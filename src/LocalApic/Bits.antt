-- ===== src/LocalApic/Bits.antt =====
-- `&` and `|` on single bits.
use native.Mathlib.Nat.{
  pow-succ', one-le-pow, div-add-mod, mod-lt, mod-eq_of_lt, mul-add-mod_self_right,
}
use visual_os.Base.{
  ℕ, zero, suc, ◌+◌, ◌*◌, ◌/◌, ◌%◌, ◌^◌, ◌≡◌, ◌<◌, ◌&&◌, ◌||◌, bit_and, bit_or, arith, ap, ◌∙◌,
}
use visual_os.Base.Bits.{bit_or_step, bit_and_step}
use visual_os.Atomic.{bt}
use visual_os.Atomic.Laws.{bt-suc}

pub bit_or-bt : (k a b : ℕ) → bt (bit_or a b) k ≡ (bt a k || bt b k)
bit_or-bt zero a b = unfold bt in ground (arith, bit_or_step a b)
bit_or-bt (suc k) a b =
    let half : bit_or a b / 2 ≡ bit_or (a / 2) (b / 2) = omega (arith, bit_or_step a b) in
    rw (bt-suc (bit_or a b) k, half, bt-suc a k, bt-suc b k) (bit_or-bt k (a / 2) (b / 2))

pub bit_and-bt : (k a b : ℕ) → bt (bit_and a b) k ≡ (bt a k && bt b k)
bit_and-bt zero a b = unfold bt in ground (arith, bit_and_step a b)
bit_and-bt (suc k) a b =
    let half : bit_and a b / 2 ≡ bit_and (a / 2) (b / 2) = omega (arith, bit_and_step a b) in
    rw (bt-suc (bit_and a b) k, half, bt-suc a k, bt-suc b k) (bit_and-bt k (a / 2) (b / 2))

mod-pow_suc : (w a : ℕ) → a % 2 ^ suc w ≡ a / 2 % 2 ^ w * 2 + a % 2
mod-pow_suc w a =
    let power : ℕ = 2 ^ w in
    let quotient : ℕ = a / 2 / power in
    let low : ℕ = a / 2 % power * 2 + a % 2 in
    let parts : power * quotient + a / 2 % power ≡ a / 2 = div-add-mod (a / 2) power in
    let double : 2 ^ suc w ≡ 2 * power = pow-succ' 2 w in
    let small : a / 2 % power < power = mod-lt (a / 2) (one-le-pow w 2 (omega arith)) in
    let whole : a ≡ quotient * (2 * power) + low = grind arith in
    let cut : (quotient * (2 * power) + low) % (2 * power) ≡ low % (2 * power) =
      mul-add-mod_self_right quotient (2 * power) low in
    let stays : low % (2 * power) ≡ low = mod-eq_of_lt (omega arith) in
    ap (λ m. a % m) double ∙ ap (λ n. n % (2 * power)) whole ∙ cut ∙ stays

-- Bits below `w` stay when a number is cut to `w` bits.
pub mod-bt : (w k a : ℕ) → k < w → bt (a % 2 ^ w) k ≡ bt a k
mod-bt zero k a l = absurd (omega arith)
mod-bt (suc w) zero a l = unfold bt in rw (mod-pow_suc w a) (ground arith)
mod-bt (suc w) (suc k) a l =
    let half : (a / 2 % 2 ^ w * 2 + a % 2) / 2 ≡ a / 2 % 2 ^ w = omega arith in
    rw (mod-pow_suc w a, bt-suc _ k, half, bt-suc a k) (mod-bt w k (a / 2) (omega arith))
