-- ===== src/Atomic/Laws.antt =====
-- What the operations of atomic.asm do to the bits of a word.
use native.Mathlib.Nat.{one-le-pow, div-eq-sub-div, add-div_right, pow-succ', div-div-eq-div-mul}
use visual_os.Base.{
  ℕ, zero, suc, ◌+◌, ◌-◌, ◌*◌, ◌/◌, ◌%◌, ◌^◌, ◌≤◌, ◌<◌, ◌≡◌, ◌≢◌, refl, true, false, not, arith,
  Bool-cases, inl, inr,
}
use visual_os.Atomic.{bt, bts, btr, atomic_lock, atomic_unlock}

div-add_self : (m d : ℕ) → 1 ≤ d → (m + d) / d ≡ m / d + 1
div-add_self m d h = add-div_right m h

div-sub_self : (m d : ℕ) → 1 ≤ d → d ≤ m → m / d ≡ (m - d) / d + 1
div-sub_self m d h le = div-eq-sub-div h le

le_of_div : (m d : ℕ) → 1 ≤ m / d → d ≤ m
le_of_div m d h = grind arith

pub bts-bt_self : (m b : ℕ) → bt (bts m b).0 b ≡ true
unfolding bts
bts-bt_self m b = elim (Bool-cases (bt m b)) [
  | inl on ↦ rw on on
  | inr off ↦ rw off (ground (arith, off, div-add_self m (2 ^ b), one-le-pow b 2))
]

pub btr-bt_self : (m b : ℕ) → bt (btr m b).0 b ≡ false
unfolding btr
btr-bt_self m b = elim (Bool-cases (bt m b)) [
  | inl on ↦ rw on (ground (arith, on, div-sub_self m (2 ^ b), le_of_div m (2 ^ b), one-le-pow b 2))
  | inr off ↦ rw off off
]

-- Position `b + 1` of a word is position `b` of its half.
pub bt-suc : (m b : ℕ) → bt m (suc b) ≡ bt (m / 2) b
unfolding bt
bt-suc m b = rw (pow-succ', ← div-div-eq-div-mul m 2 (2 ^ b))

bt-double : (x r b : ℕ) → r < 2 → bt (x * 2 + r) (suc b) ≡ bt x b
bt-double x r b h = let e : (x * 2 + r) / 2 ≡ x = omega arith in rw (bt-suc, e)

bt-zero : (x m : ℕ) → bt (x * 2 + m % 2) 0 ≡ bt m 0
unfolding bt
bt-zero x m = ground arith

le_of_bt : (m b : ℕ) → bt m b ≡ true → 2 ^ b ≤ m
unfolding bt
le_of_bt m b h = le_of_div m (2 ^ b) (ground arith)

pub bts-suc : (m b : ℕ) → (bts m (suc b)).0 ≡ (bts (m / 2) b).0 * 2 + m % 2
unfolding bts
bts-suc m b = rw (bt-suc m b) (ground (arith, pow-succ' 2 b))

pub btr-suc : (m b : ℕ) → (btr m (suc b)).0 ≡ (btr (m / 2) b).0 * 2 + m % 2
unfolding btr
btr-suc m b = rw (bt-suc m b) (ground (arith, pow-succ' 2 b, le_of_bt (m / 2) b))

pub bts-zero : (m : ℕ) → (bts m 0).0 / 2 ≡ m / 2
unfolding bts
bts-zero m = ground arith

pub btr-zero : (m : ℕ) → (btr m 0).0 / 2 ≡ m / 2
unfolding btr
btr-zero m = ground arith

-- `bts` and `btr` leave every other bit alone.
pub bts-bt_ne : (b c m : ℕ) → b ≢ c → bt (bts m b).0 c ≡ bt m c
bts-bt_ne zero zero m ne = absurd (ne refl)
bts-bt_ne zero (suc c) m ne = rw (bt-suc (bts m 0).0 c, bts-zero m, ← bt-suc m c)
bts-bt_ne (suc b) zero m ne = rw (bts-suc m b) (bt-zero _ m)
bts-bt_ne (suc b) (suc c) m ne =
    rw (bts-suc m b, bt-double _ (m % 2) c (omega arith), bt-suc m c)
      (bts-bt_ne b c (m / 2) (omega arith))

pub btr-bt_ne : (b c m : ℕ) → b ≢ c → bt (btr m b).0 c ≡ bt m c
btr-bt_ne zero zero m ne = absurd (ne refl)
btr-bt_ne zero (suc c) m ne = rw (bt-suc (btr m 0).0 c, btr-zero m, ← bt-suc m c)
btr-bt_ne (suc b) zero m ne = rw (btr-suc m b) (bt-zero _ m)
btr-bt_ne (suc b) (suc c) m ne =
    rw (btr-suc m b, bt-double _ (m % 2) c (omega arith), bt-suc m c)
      (btr-bt_ne b c (m / 2) (omega arith))

-- `btr` undoes `bts` on a word that had the bit off.
pub btr-bts : (m b : ℕ) → bt m b ≡ false → (btr (bts m b).0 b).0 ≡ m
unfolding btr
btr-bts m b off = rw (bts-bt_self m b) (ground (arith, bts_off m b off))
  where
    bts_off : (m b : ℕ) → bt m b ≡ false → (bts m b).0 ≡ m + 2 ^ b
    bts_off m b off = unfold bts in rw off

btr-bts_self : (m b : ℕ) → (btr (bts m b).0 b).0 ≡ (btr m b).0
btr-bts_self m b = elim (Bool-cases (bt m b)) [
  | inl on ↦ let e : (bts m b).0 ≡ m = unfold bts in rw on in rw e
  | inr off ↦ let e : (btr m b).0 ≡ m = unfold btr in rw off in rw (btr-bts m b off, e)
]

-- `atomic_lock` puts the bit on and leaves the others; `atomic_unlock` puts it off and leaves the
-- others, whether or not `atomic_lock` ran before. Each returns 1 exactly if the bit was off before
-- the call.
pub atomic_lock-unlock :
    (m b c : ℕ)
    → b ≢ c
    → (bt (atomic_lock m b).0 b ≡ true)
      × (bt (atomic_lock m b).0 c ≡ bt m c)
      × ((atomic_lock m b).1 ≡ not (bt m b))
      × (bt (atomic_unlock m b).0 b ≡ false)
      × (bt (atomic_unlock m b).0 c ≡ bt m c)
      × ((atomic_unlock m b).1 ≡ not (bt m b))
      × ((atomic_unlock (atomic_lock m b).0 b).0 ≡ (atomic_unlock m b).0)
unfolding atomic_lock atomic_unlock
atomic_lock-unlock m b c ne = (
  bts-bt_self m b,
  bts-bt_ne b c m ne,
  refl,
  btr-bt_self m b,
  btr-bt_ne b c m ne,
  refl,
  btr-bts_self m b,
)
