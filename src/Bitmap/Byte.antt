-- ===== src/Bitmap/Byte.antt =====
-- The bits of one byte, by a table of all bytes and positions.
use visual_os.Base.{
  ℕ, zero, suc, ◌<◌, ◌≡◌, refl, Bool, true, false, ◌&&◌, arith, ◌==◌, ltb, bool_eq, if◌then◌else◌,
}
use visual_os.Bitmap.{test_byte, put_byte}

-- Whether a test holds of all numbers under a limit.
every : (ℕ → Bool) → ℕ → Bool
every test zero = true
every test (suc limit) = every test limit && test limit

at_below : (test : ℕ → Bool) (limit n : ℕ) → n < limit → every test limit ≡ true → test n ≡ true
unfolding every
at_below test zero n below holds = absurd (omega arith)
at_below test (suc limit) n below holds = ground (arith, at_below test limit n)

bool_eq_sound : (a b : Bool) → bool_eq a b ≡ true → a ≡ b
bool_eq_sound a b h = ground arith

row : Bool → ℕ → ℕ → ℕ → Bool
row v b k j =
    bool_eq (test_byte (put_byte b k v) j) (if k == j then v else test_byte b j)
    && ltb (put_byte b k v) 256

table : Bool → Bool
unfolding every row
table v = every (λ b. every (λ k. every (λ j. row v b k j) 8) 8) 256

table_holds : (v : Bool) → table v ≡ true
unfolding table
table_holds true = refl
table_holds false = refl

row_holds : (v : Bool) (b k j : ℕ) → b < 256 → k < 8 → j < 8 → row v b k j ≡ true
row_holds v b k j hb hk hj =
    at_below (λ j. row v b k j) 8 j hj
      (at_below (λ k. every (λ j. row v b k j) 8) 8 k hk
        (at_below (λ b. every (λ k. every (λ j. row v b k j) 8) 8) 256 b hb
          (unfold table in table_holds v)))

pub test-put :
    (v : Bool) (b k j : ℕ)
    → b < 256
    → k < 8
    → j < 8
    → test_byte (put_byte b k v) j ≡ (if k == j then v else test_byte b j)
unfolding row
test-put v b k j hb hk hj = bool_eq_sound _ _ (ground (arith, row_holds v b k j))

pub put_byte-lt : (v : Bool) (b k : ℕ) → b < 256 → k < 8 → put_byte b k v < 256
unfolding row
put_byte-lt v b k hb hk = ground (arith, row_holds v b k 0)
