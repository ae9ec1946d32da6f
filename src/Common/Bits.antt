-- ===== src/Common/Bits.antt =====
-- `|` on numbers whose digits do not meet: it adds them.
use Prim.Native.Nat.{
  ℕ, zero, suc, ◌+◌, ◌*◌, ◌/◌, ◌%◌, ◌≤◌, ◌<◌, max, bit_or, digits, bit_or-bitwise,
}
use mathlib.Core.Path.{◌≡◌, refl, ap, ◌∙◌, ap₂}
use native.Mathlib.Omega.{arith}

-- The digits of `|` with a count of those to go.
abbrev or_counted : ℕ → ℕ → ℕ → ℕ
or_counted count a b = digits (λ b. b) max count a b

or_counted_any : (n m a b : ℕ) → a ≤ n → a ≤ m → or_counted n a b ≡ or_counted m a b
or_counted_any zero zero a b p q = refl
or_counted_any zero (suc m) zero b p q = refl
or_counted_any zero (suc m) (suc a) b p q = absurd (omega arith)
or_counted_any (suc n) zero zero b p q = refl
or_counted_any (suc n) zero (suc a) b p q = absurd (omega arith)
or_counted_any (suc n) (suc m) zero b p q = refl
or_counted_any (suc n) (suc m) (suc a) b p q =
    omega (arith, or_counted_any n m (suc a / 2) (b / 2) (omega arith) (omega arith))

zero-bit_or : (b : ℕ) → bit_or 0 b ≡ b
zero-bit_or b = bit_or-bitwise 0 b

-- The lowest digit by itself.
bit_or_lowest : (a b : ℕ) → bit_or a b ≡ bit_or (a / 2) (b / 2) * 2 + max (a % 2) (b % 2)
bit_or_lowest zero b = omega (arith, zero-bit_or b, zero-bit_or (b / 2))
bit_or_lowest (suc a) b = omega (
  arith,
  bit_or-bitwise (suc a) b,
  bit_or-bitwise (suc a / 2) (b / 2),
  or_counted_any a (suc a / 2) (suc a / 2) (b / 2) (omega arith) (omega arith),
)

bit_or-zero_below : (n a : ℕ) → a ≤ n → bit_or a 0 ≡ a
bit_or-zero_below n zero h = zero-bit_or 0
bit_or-zero_below zero (suc a) h = absurd (omega arith)
bit_or-zero_below (suc n) (suc a) h =
    omega (arith, bit_or_lowest (suc a) 0, bit_or-zero_below n (suc a / 2) (omega arith))

bit_or-zero : (a : ℕ) → bit_or a 0 ≡ a
bit_or-zero a = bit_or-zero_below a a (omega arith)

plus_zero : (n : ℕ) → n ≡ n + 0
plus_zero n = omega arith

bit_or_double : (a b d : ℕ) → d < 2 → bit_or (a * 2) (b * 2 + d) ≡ bit_or a b * 2 + d
bit_or_double a b d h =
    let low : (a * 2) / 2 ≡ a = omega arith in
    let high : (b * 2 + d) / 2 ≡ b = omega arith in
    bit_or_lowest (a * 2) (b * 2 + d)
    ∙ ap₂ (λ x y. bit_or x y * 2 + max ((a * 2) % 2) ((b * 2 + d) % 2)) low high
    ∙ omega arith

-- `a << k`.
abbrev pub shift_left : ℕ → ℕ → ℕ
shift_left zero a = a
shift_left (suc k) a = shift_left k a * 2

pub bit_or-shift_left :
    (k a y : ℕ) → y < shift_left k 1 → bit_or (shift_left k a) y ≡ shift_left k a + y
bit_or-shift_left zero a y h =
    let none : y ≡ 0 = omega arith in ap (bit_or a) none ∙ omega (arith, bit_or-zero a)
bit_or-shift_left (suc k) a y h =
    let halves : y ≡ y / 2 * 2 + y % 2 = omega arith in
    ap (bit_or (shift_left k a * 2)) halves
    ∙ bit_or_double (shift_left k a) (y / 2) (y % 2) (omega arith)
    ∙ omega (arith, bit_or-shift_left k a (y / 2) (omega (arith, h)))

-- Two numbers shifted alike.
pub bit_or-shift_both :
    (k a b : ℕ) → bit_or (shift_left k a) (shift_left k b) ≡ shift_left k (bit_or a b)
bit_or-shift_both zero a b = refl
bit_or-shift_both (suc k) a b =
    ap (bit_or (shift_left k a * 2)) (plus_zero (shift_left k b * 2))
    ∙ bit_or_double (shift_left k a) (shift_left k b) 0 (omega arith)
    ∙ omega (arith, bit_or-shift_both k a b)

six : (a : ℕ) → a * 64 ≡ shift_left 6 a
six a = omega arith

-- `a << 6 | y` for six digits `y`.
pub bit_or_six : (a y : ℕ) → y < 64 → bit_or (a * 64) y ≡ a * 64 + y
bit_or_six a y h =
    ap (λ x. bit_or x y) (six a) ∙ bit_or-shift_left 6 a y (omega arith) ∙ omega arith

bit_or_six_both : (a b : ℕ) → bit_or (a * 64) (b * 64) ≡ bit_or a b * 64
bit_or_six_both a b = rw (six a, six b) (bit_or-shift_both 6 a b ∙ omega arith)

-- `a << 12 | x << 6 | y`.
pub bit_or_twelve :
    (a x y : ℕ) → x < 64 → y < 64 → bit_or (bit_or (a * 4096) (x * 64)) y ≡ a * 4096 + x * 64 + y
bit_or_twelve a x y h l =
    let shifted : a * 4096 ≡ a * 64 * 64 = omega arith in
    let inner : bit_or (a * 4096) (x * 64) ≡ (a * 64 + x) * 64 =
      ap (λ z. bit_or z (x * 64)) shifted
      ∙ bit_or_six_both (a * 64) x
      ∙ ap (λ z. z * 64) (bit_or_six a x h) in
    ap (λ z. bit_or z y) inner ∙ bit_or_six (a * 64 + x) y l ∙ omega arith

-- `a << 18 | x << 12 | y << 6 | z`.
pub bit_or_eighteen :
    (a x y z : ℕ)
    → x < 64
    → y < 64
    → z < 64
    → bit_or (bit_or (bit_or (a * 262144) (x * 4096)) (y * 64)) z
      ≡ a * 262144 + x * 4096 + y * 64 + z
bit_or_eighteen a x y z h l m =
    let shifted : a * 262144 ≡ a * 4096 * 64 = omega arith in
    let shifted' : x * 4096 ≡ x * 64 * 64 = omega arith in
    let inner : bit_or (bit_or (a * 262144) (x * 4096)) (y * 64) ≡ (a * 4096 + x * 64 + y) * 64 =
      ap₂ (λ u v. bit_or (bit_or u v) (y * 64)) shifted shifted'
      ∙ ap (λ u. bit_or u (y * 64)) (bit_or_six_both (a * 4096) (x * 64))
      ∙ bit_or_six_both (bit_or (a * 4096) (x * 64)) y
      ∙ ap (λ u. u * 64) (bit_or_twelve a x y h l) in
    ap (λ u. bit_or u z) inner ∙ bit_or_six (a * 4096 + x * 64 + y) z m ∙ omega arith
