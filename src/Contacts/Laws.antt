-- ===== src/Contacts/Laws.antt =====
-- Numbers that are in international form already stay as they are.
use Prim.Native.Char.{code}
use text.Mathlib.TextLemmas.{nil-append, cons-append}
use hwfa.Common.{
  ℕ, ◌≤◌, Bool, true, false, ◌&&◌, Option, some, ◌≡◌, refl, ap, arith, String, ◌==◌, eq_iff,
  Bool-cases, inl, inr,
}
use hwfa.Common.Text.{◌+++◌, starts_with, starts_with-append, slice_after-append}
use hwfa.Common.Text.{text_length}
use hwfa.Contacts.{is_digit, is_phone_char, keep, international, normalize_e164}

unfoldable pub all_chars : (ℕ → Bool) → String → Bool
all_chars p String.[] = true
all_chars p (String.◌∷◌ c s) = p (code c) && all_chars p s

keep_of_digits :
    (s : String) → all_chars is_digit s ≡ true → (keep is_digit s ≡ s) × (keep is_phone_char s ≡ s)
unfolding all_chars keep
keep_of_digits String.[] h = (refl, refl)
keep_of_digits (String.◌∷◌ c s) h =
    let (d, q) = keep_of_digits s (ground (arith, h)) in
    let here : is_digit (code c) ≡ true = ground (arith, h) in
    let phone : is_phone_char (code c) ≡ true = ground (arith, here) in
    (rw here (ap (λ r. String.◌∷◌ c r) d), rw phone (ap (λ r. String.◌∷◌ c r) q))

keep-plus :
    (digits : String)
    → all_chars is_digit digits ≡ true
    → keep is_phone_char ("+" +++ digits) ≡ "+" +++ digits
unfolding keep
keep-plus digits h =
    rw cons-append (rw nil-append (ap (λ r. String.◌∷◌ "+" r) (keep_of_digits digits h).1))

international-plus :
    (digits : String) (default_code : Option String)
    → all_chars is_digit digits ≡ true
    → international ("+" +++ digits) default_code ≡ "+" +++ digits
unfolding international
international-plus digits default_code h =
    rw (starts_with-append "+" digits, slice_after-append "+" digits, (keep_of_digits digits h).0)

plus_is_some : (digits : String) → ("+" +++ digits == "") ≡ false
unfolding starts_with
plus_is_some digits = elim (Bool-cases ("+" +++ digits == "")) [
  | inl e ↦
      let empty : "+" +++ digits ≡ "" = (eq_iff ("+" +++ digits) "").0 e in
      let plus : starts_with "" "+" ≡ true = rw empty at (starts_with-append "+" digits) in cc
  | inr e ↦ e
]

-- A `+` with 7 to 15 digits behind it is its own normal form, whatever the default code.
pub normalize_e164_lem :
    (digits : String) (default_code : Option String)
    → all_chars is_digit digits ≡ true
    → 7 ≤ text_length digits
    → text_length digits ≤ 15
    → normalize_e164 ("+" +++ digits) default_code ≡ some ("+" +++ digits)
unfolding normalize_e164
normalize_e164_lem digits default_code h low high =
    rw
      (
        plus_is_some digits,
        keep-plus digits h,
        international-plus digits default_code h,
        slice_after-append "+" digits,
      )
      (ground (arith, low, high))
