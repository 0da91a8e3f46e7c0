-- ===== src/Base/Bits.antt =====
-- Laws of `&` and `|` at variables: both work on the low and the high digits apart.
use Prim.Native.Nat.{
  ℕ, zero, suc, ◌+◌, ◌-◌, ◌*◌, ◌/◌, ◌%◌, ◌^◌, ◌≤◌, ◌<◌, min, max, bit_and, bit_or, bit_xor, digits,
  bitwise, bit_and-bitwise, bit_or-bitwise, bit_xor-bitwise, differ,
}
use mathlib.Core.Path.{◌≡◌, refl, ap, sym, ◌∙◌}
use native.Mathlib.Nat.{pow-suc, one-le-pow}
use native.Mathlib.Omega.{arith}

-- The native operations stand for a recursion on binary digits with fuel. Fuel that covers the
-- first number is enough, so the equation of the lowest digit needs none.
module _ (base : ℕ → ℕ) (bit : ℕ → ℕ → ℕ) where
  enough_fuel : (p x y q : ℕ) → x ≤ p → x ≤ q → digits base bit p x y ≡ digits base bit q x y
  enough_fuel zero zero y zero hp hq = refl
  enough_fuel zero zero y (suc q) hp hq = refl
  enough_fuel (suc p) zero y zero hp hq = refl
  enough_fuel (suc p) zero y (suc q) hp hq = refl
  enough_fuel zero (suc x) y q hp hq = absurd (omega arith)
  enough_fuel (suc p) (suc x) y zero hp hq = absurd (omega arith)
  enough_fuel (suc p) (suc x) y (suc q) hp hq =
      ap (λ rest. rest * 2 + bit (suc x % 2) (y % 2))
        (enough_fuel p (suc x / 2) (y / 2) q (omega arith) (omega arith))

  lowest_digit :
      (x y : ℕ)
      → bitwise base bit (suc x) y
        ≡ bitwise base bit (suc x / 2) (y / 2) * 2 + bit (suc x % 2) (y % 2)
  lowest_digit x y =
      ap (λ rest. rest * 2 + bit (suc x % 2) (y % 2))
        (enough_fuel x (suc x / 2) (y / 2) (suc x / 2) (omega arith) (omega arith))

pub bit_or_step : (a b : ℕ) → bit_or a b ≡ bit_or (a / 2) (b / 2) * 2 + max (a % 2) (b % 2)
bit_or_step zero b = omega (arith, bit_or-bitwise 0 b, bit_or-bitwise 0 (b / 2))
bit_or_step (suc a) b =
    bit_or-bitwise (suc a) b
    ∙ lowest_digit (λ y. y) max a b
    ∙ ap (λ rest. rest * 2 + max (suc a % 2) (b % 2)) (sym (bit_or-bitwise (suc a / 2) (b / 2)))

pub bit_and_step : (a b : ℕ) → bit_and a b ≡ bit_and (a / 2) (b / 2) * 2 + min (a % 2) (b % 2)
bit_and_step zero b = omega (arith, bit_and-bitwise 0 b, bit_and-bitwise 0 (b / 2))
bit_and_step (suc a) b =
    bit_and-bitwise (suc a) b
    ∙ lowest_digit (λ y. 0) min a b
    ∙ ap (λ rest. rest * 2 + min (suc a % 2) (b % 2)) (sym (bit_and-bitwise (suc a / 2) (b / 2)))

differ_lem : (x y : ℕ) → x < 2 → y < 2 → differ x y ≡ (x + y) % 2
differ_lem zero y a b = omega arith
differ_lem (suc zero) zero a b = refl
differ_lem (suc zero) (suc zero) a b = refl
differ_lem (suc zero) (suc (suc y)) a b = absurd (omega arith)
differ_lem (suc (suc x)) y a b = absurd (omega arith)

pub bit_xor_step : (a b : ℕ) → bit_xor a b ≡ bit_xor (a / 2) (b / 2) * 2 + (a % 2 + b % 2) % 2
bit_xor_step zero b =
    let all : bit_xor 0 b ≡ b = bit_xor-bitwise 0 b in
    let half : bit_xor 0 (b / 2) ≡ b / 2 = bit_xor-bitwise 0 (b / 2) in omega (arith, all, half)
bit_xor_step (suc a) b =
    bit_xor-bitwise (suc a) b
    ∙ lowest_digit (λ y. y) differ a b
    ∙ ap (λ rest. rest * 2 + differ (suc a % 2) (b % 2)) (sym (bit_xor-bitwise (suc a / 2) (b / 2)))
    ∙ ap (λ bit. bit_xor (suc a / 2) (b / 2) * 2 + bit)
        (differ_lem (suc a % 2) (b % 2) (omega arith) (omega arith))

-- `fuel` covers the first number.
bit_xor-zero_fuel : (fuel a : ℕ) → a ≤ fuel → bit_xor a 0 ≡ a
bit_xor-zero_fuel zero zero l = bit_xor-bitwise 0 0
bit_xor-zero_fuel zero (suc a) l = absurd (omega arith)
bit_xor-zero_fuel (suc fuel) zero l = bit_xor-bitwise 0 0
bit_xor-zero_fuel (suc fuel) (suc a) l =
    let rest : bit_xor (suc a / 2) 0 ≡ suc a / 2 =
      bit_xor-zero_fuel fuel (suc a / 2) (omega arith) in
    omega (arith, rest, bit_xor_step (suc a) 0)

pub bit_xor-even : (n z : ℕ) → bit_xor n (z * 2) ≡ bit_xor (n / 2) z * 2 + n % 2
bit_xor-even n z =
    let half : z * 2 / 2 ≡ z = omega arith in omega (arith, rw half at (bit_xor_step n (z * 2)))

pub bit_xor-small : (n y : ℕ) → y < 2 → bit_xor n y ≡ n / 2 * 2 + (n % 2 + y) % 2
bit_xor-small n y l =
    let half : y / 2 ≡ 0 = omega arith in
    let rest : bit_xor (n / 2) 0 ≡ n / 2 = bit_xor-zero_fuel (n / 2) (n / 2) (omega arith) in
    omega (arith, rest, rw half at (bit_xor_step n y))

twice_pow : (k n : ℕ) → n * 2 ^ suc k ≡ n * 2 ^ k + n * 2 ^ k
twice_pow k n = omega (ap (λ (power : ℕ). n * power) (pow-suc 2 k), arith)

pub zero-bit_and : (b : ℕ) → bit_and 0 b ≡ 0
zero-bit_and b = bit_and-bitwise 0 b

pub zero-bit_or : (b : ℕ) → bit_or 0 b ≡ b
zero-bit_or b = bit_or-bitwise 0 b

-- `&` of two numbers, each cut at digit `k`.
pub bit_and_split :
    (k a b r s : ℕ)
    → r < 2 ^ k
    → s < 2 ^ k
    → bit_and (a * 2 ^ k + r) (b * 2 ^ k + s) ≡ bit_and a b * 2 ^ k + bit_and r s
bit_and_split zero a b r s hr hs =
    let er : r ≡ 0 = omega arith in
    let es : s ≡ 0 = omega arith in rw (er, es) (ground (arith, zero-bit_and 0))
bit_and_split (suc k) a b r s hr hs = ground (
  arith,
  bit_and_step (a * 2 ^ suc k + r) (b * 2 ^ suc k + s),
  bit_and_step r s,
  twice_pow k a,
  twice_pow k b,
  twice_pow k (bit_and a b),
  pow-suc 2 k,
  bit_and_split k a b (r / 2) (s / 2) (omega (arith, pow-suc 2 k)) (omega (arith, pow-suc 2 k)),
)

pub bit_or_split :
    (k a b r s : ℕ)
    → r < 2 ^ k
    → s < 2 ^ k
    → bit_or (a * 2 ^ k + r) (b * 2 ^ k + s) ≡ bit_or a b * 2 ^ k + bit_or r s
bit_or_split zero a b r s hr hs =
    let er : r ≡ 0 = omega arith in
    let es : s ≡ 0 = omega arith in rw (er, es) (ground (arith, zero-bit_or 0))
bit_or_split (suc k) a b r s hr hs = ground (
  arith,
  bit_or_step (a * 2 ^ suc k + r) (b * 2 ^ suc k + s),
  bit_or_step r s,
  twice_pow k a,
  twice_pow k b,
  twice_pow k (bit_or a b),
  pow-suc 2 k,
  bit_or_split k a b (r / 2) (s / 2) (omega (arith, pow-suc 2 k)) (omega (arith, pow-suc 2 k)),
)

and_zero_fuel : (n a : ℕ) → a ≤ n → bit_and a 0 ≡ 0
and_zero_fuel n zero h = zero-bit_and 0
and_zero_fuel zero (suc a) h = absurd (omega arith)
and_zero_fuel (suc n) (suc a) h =
    omega (arith, bit_and_step (suc a) 0, and_zero_fuel n (suc a / 2) (omega arith))

or_zero_fuel : (n a : ℕ) → a ≤ n → bit_or a 0 ≡ a
or_zero_fuel n zero h = zero-bit_or 0
or_zero_fuel zero (suc a) h = absurd (omega arith)
or_zero_fuel (suc n) (suc a) h =
    omega (arith, bit_or_step (suc a) 0, or_zero_fuel n (suc a / 2) (omega arith))

pub bit_and-zero : (a : ℕ) → bit_and a 0 ≡ 0
bit_and-zero a = and_zero_fuel a a (omega arith)

pub bit_or-zero : (a : ℕ) → bit_or a 0 ≡ a
bit_or-zero a = or_zero_fuel a a (omega arith)

ones_of_lt : (k r : ℕ) → r < 2 ^ k → bit_and r (2 ^ k - 1) ≡ r
ones_of_lt zero r h = ground (arith, bit_and-zero r)
ones_of_lt (suc k) r h =
    ground
      (arith, bit_and_step r (2 ^ suc k - 1), ones_of_lt k (r / 2), pow-suc 2 k, one-le-pow k 2)

-- `&` with `k` low ones is the remainder by `2 ^ k`.
pub bit_and-ones : (k a : ℕ) → bit_and a (2 ^ k - 1) ≡ a % 2 ^ k
bit_and-ones k a = ground (
  arith,
  bit_and_split k (a / 2 ^ k) 0 (a % 2 ^ k) (2 ^ k - 1),
  ones_of_lt k (a % 2 ^ k),
  bit_and-zero (a / 2 ^ k),
  one-le-pow k 2,
)
