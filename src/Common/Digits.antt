-- ===== src/Common/Digits.antt =====
-- `n.toString(radix)` for a radix up to 36, and that it is injective in decimal.
use Prim.Native.Char.{code}
use Prim.Native.Nat.{ℕ, zero, suc, ◌+◌, ◌-◌, ◌*◌, ◌/◌, ◌%◌, ◌≤◌, ◌<◌}
use Prim.Native.String.{String}
use mathlib.Core.Path.{◌≡◌, refl, sym, ap, ◌∙◌}
use mathlib.Core.Logic.{inl, inr}
use mathlib.Core.Bool.{true}
use native.Mathlib.Omega.{arith}
use hwfa.Common.Text.{text_length}
use hwfa.Common.Tests.{ltb, if◌then◌else◌, Bool-cases}

-- The digit at the head; past the table there is none.
push_digit : String → ℕ → String → String
push_digit String.[] d acc = acc
push_digit (String.◌∷◌ c table) zero acc = String.◌∷◌ c acc
push_digit (String.◌∷◌ c table) (suc d) acc = push_digit table d acc

abbrev digit_table : String
digit_table = "0123456789abcdefghijklmnopqrstuvwxyz"

-- The digits of `n` before `acc`; the fuel is more than the number of digits.
digits_from : ℕ → ℕ → ℕ → String → String
unfolding push_digit
digits_from zero radix n acc = acc
digits_from (suc fuel) radix n acc =
    let acc' = push_digit digit_table (n % radix) acc in
    let more = digits_from fuel radix (n / radix) acc' in if ltb n radix then acc' else more

unfoldable pub to_text : ℕ → ℕ → String
unfolding digits_from
to_text radix n = digits_from (suc n) radix n ""

value_from : ℕ → String → ℕ
value_from n String.[] = n
value_from n (String.◌∷◌ c s) = value_from (n * 10 + (code c - 48)) s

value_from-push_digit :
    (n d : ℕ) (acc : String)
    → d < 10
    → value_from n (push_digit digit_table d acc) ≡ value_from (n * 10 + d) acc
unfolding value_from push_digit
value_from-push_digit n zero acc h = refl
value_from-push_digit n (suc zero) acc h = refl
value_from-push_digit n (suc (suc zero)) acc h = refl
value_from-push_digit n (suc (suc (suc zero))) acc h = refl
value_from-push_digit n (suc (suc (suc (suc zero)))) acc h = refl
value_from-push_digit n (suc (suc (suc (suc (suc zero))))) acc h = refl
value_from-push_digit n (suc (suc (suc (suc (suc (suc zero)))))) acc h = refl
value_from-push_digit n (suc (suc (suc (suc (suc (suc (suc zero))))))) acc h = refl
value_from-push_digit n (suc (suc (suc (suc (suc (suc (suc (suc zero)))))))) acc h = refl
value_from-push_digit n (suc (suc (suc (suc (suc (suc (suc (suc (suc zero))))))))) acc h = refl
value_from-push_digit n (suc (suc (suc (suc (suc (suc (suc (suc (suc (suc d)))))))))) acc h =
    absurd (omega arith)

value_from-digits_from :
    (fuel n : ℕ) (acc : String)
    → n < fuel
    → value_from 0 (digits_from fuel 10 n acc) ≡ value_from n acc
unfolding digits_from
value_from-digits_from zero n acc h = elim h [ ]
value_from-digits_from (suc fuel) n acc h = elim (Bool-cases (ltb n 10)) [
  | inl small ↦ rw small (
      value_from-push_digit 0 (n % 10) acc (omega arith)
      ∙ ap (λ k. value_from k acc) (ground arith))
  | inr large ↦ rw large (
      value_from-digits_from fuel (n / 10) (push_digit digit_table (n % 10) acc) (ground arith)
      ∙ value_from-push_digit (n / 10) (n % 10) acc (omega arith)
      ∙ ap (λ k. value_from k acc) (omega arith))
]

value_from-to_text : (n : ℕ) → value_from 0 (to_text 10 n) ≡ n
unfolding to_text value_from
value_from-to_text n = value_from-digits_from (suc n) n "" (omega arith)

-- Two numbers with the same decimal digits are the same number.
pub to_text_injective : (n m : ℕ) → to_text 10 n ≡ to_text 10 m → n ≡ m
to_text_injective n m e = sym (value_from-to_text n) ∙ ap (value_from 0) e ∙ value_from-to_text m

abbrev pub ten_to : ℕ → ℕ
ten_to zero = 1
ten_to (suc k) = 10 * ten_to k

length-push_from :
    (table : String) (d : ℕ) (acc : String)
    → text_length (push_digit table d acc) ≤ suc (text_length acc)
unfolding text_length push_digit
length-push_from String.[] d acc = omega arith
length-push_from (String.◌∷◌ c table) zero acc = omega arith
length-push_from (String.◌∷◌ c table) (suc d) acc = length-push_from table d acc

length-push_digit :
    (d : ℕ) (acc : String) → text_length (push_digit digit_table d acc) ≤ suc (text_length acc)
unfolding text_length
length-push_digit d acc = length-push_from digit_table d acc

length-digits_from :
    (fuel k n : ℕ) (acc : String)
    → n < ten_to (suc k)
    → text_length (digits_from fuel 10 n acc) ≤ text_length acc + suc k
unfolding digits_from
length-digits_from zero k n acc h = omega arith
length-digits_from (suc fuel) zero n acc h =
    let small : ltb n 10 ≡ true = ground arith in
    rw small (omega (arith, length-push_digit (n % 10) acc))
length-digits_from (suc fuel) (suc k) n acc h = elim (Bool-cases (ltb n 10)) [
  | inl small ↦ rw small (omega (arith, length-push_digit (n % 10) acc))
  | inr large ↦
      let acc' = push_digit digit_table (n % 10) acc in
      rw large (
        omega (
          arith,
          length-push_digit (n % 10) acc,
          length-digits_from fuel k (n / 10) acc' (omega (arith, h)),
        ))
]

-- A number below ten to the `suc k` has at most so many digits.
pub length-to_text : (k n : ℕ) → n < ten_to (suc k) → text_length (to_text 10 n) ≤ suc k
unfolding to_text text_length
length-to_text k n h = omega (arith, length-digits_from (suc n) k n "" h)
