-- ===== src/Base64Url/Laws.antt =====
-- URL-safe base64 and back.
mod Tests
use Prim.Native.Char.{Char, code}
use Prim.Native.String
use mathlib.Core.Path.{ap₂}
use text.Mathlib.TextEquality.{Char-path}
use text.Mathlib.TextLemmas.{nil-append, cons-append, append-nil, append_assoc}
use hwfa.Common.{
  ℕ, zero, suc, ◌+◌, ◌-◌, ◌%◌, ◌≤◌, ◌<◌, Bool, true, false, not, ◌&&◌, ◌||◌, ◌≡◌, refl, sym, ap,
  ◌∙◌, arith, String, nat_eq, Bool-cases, inl, inr,
}
use hwfa.Common.Text.{◌+++◌, text_length, text_length-append}
use hwfa.Base64Url.{
  replace_char, replace_all, pad_loop, to_standard, strip_before, strip_padding, to_url_safe,
}

-- The characters of base64 without its padding, and those alone that the URL-safe form has not.
abbrev pub is_plain : ℕ → Bool
is_plain c = not (nat_eq c b'-') && not (nat_eq c b'_') && not (nat_eq c b'=')

unfoldable pub all_plain : String → Bool
all_plain String.[] = true
all_plain (String.◌∷◌ c s) = is_plain (code c) && all_plain s

unfoldable pub equals : ℕ → String
equals zero = String.[]
equals (suc n) = String.◌∷◌ "=" (equals n)

nat_eq_sound : (a b : ℕ) → nat_eq a b ≡ true → a ≡ b
nat_eq_sound a b h = ground arith

replace_all-append :
    (a : ℕ) (b : Char) (s t : String)
    → replace_all a b (s +++ t) ≡ replace_all a b s +++ replace_all a b t
unfolding replace_all
replace_all-append a b String.[] t = rw (nil-append t, nil-append (replace_all a b t)) refl
replace_all-append a b (String.◌∷◌ c s) t =
    rw (cons-append c s t, cons-append (replace_char a b c), replace_all-append a b s t) refl

text_length-equals : (n : ℕ) → text_length (equals n) ≡ n
unfolding text_length equals
text_length-equals zero = refl
text_length-equals (suc n) = ap suc (text_length-equals n)

and_left : (a b : Bool) → a && b ≡ true → a ≡ true
and_left a b h = ground arith

and_right : (a b : Bool) → a && b ≡ true → b ≡ true
and_right a b h = ground arith

-- `+` and `/` come back: nothing else was turned into `-` or `_`.
char_back :
    (c : Char)
    → is_plain (code c) ≡ true
    → replace_char b'_' "/"
        (replace_char b'-' "+" (replace_char b'/' "_" (replace_char b'+' "-" c)))
      ≡ c
char_back c h =
    let no_minus : nat_eq (code c) b'-' ≡ false = ground arith in
    let no_underscore : nat_eq (code c) b'_' ≡ false = ground arith in
    elim (Bool-cases (nat_eq (code c) b'+')) [
      | inl e ↦ rw e (Char-path "+" c (sym (nat_eq_sound _ _ e)))
      | inr e ↦ elim (Bool-cases (nat_eq (code c) b'/')) [
        | inl f ↦ rw (e, f) (Char-path "/" c (sym (nat_eq_sound _ _ f)))
        | inr f ↦ rw (e, f, no_minus, no_underscore) refl
      ]
    ]

replaced_back :
    (s : String)
    → all_plain s ≡ true
    → replace_all b'_' "/" (replace_all b'-' "+" (replace_all b'/' "_" (replace_all b'+' "-" s)))
      ≡ s
unfolding replace_all all_plain
replaced_back String.[] h = refl
replaced_back (String.◌∷◌ c s) h =
    ap₂ String.◌∷◌ (char_back c (and_left _ _ h)) (replaced_back s (and_right _ _ h))

pad_loop_lem :
    (fuel n : ℕ) (s : String)
    → n ≤ fuel
    → n < 4
    → (text_length s + n) % 4 ≡ 0
    → pad_loop fuel s ≡ s +++ equals n
unfolding pad_loop equals
pad_loop_lem zero zero s f h e = sym (append-nil s)
pad_loop_lem zero (suc n) s f h e = absurd (omega arith)
pad_loop_lem (suc fuel) zero s f h e =
    let done : nat_eq (text_length s % 4) 0 ≡ true = ground arith in rw (done, append-nil s) refl
pad_loop_lem (suc fuel) (suc n) s f h e =
    let short : nat_eq (text_length s % 4) 0 ≡ false = ground arith in
    rw
      (
        short,
        pad_loop_lem fuel n (s +++ "=") (omega arith) (omega arith)
            (omega (arith, text_length-append s "=", text_length-equals 1)),
      )
      ((append_assoc s "=" (equals n))
        ∙ ap (λ t. s +++ t)
            (cons-append "=" "" (equals n) ∙ ap (String.◌∷◌ "=") (nil-append (equals n))))

replace_all-equals :
    (a : ℕ) (b : Char) (n : ℕ) → nat_eq b'=' a ≡ false → replace_all a b (equals n) ≡ equals n
unfolding replace_all equals
replace_all-equals a b zero h = refl
replace_all-equals a b (suc n) h = rw (h, replace_all-equals a b n h) refl

unfoldable no_equals : String → Bool
no_equals String.[] = true
no_equals (String.◌∷◌ c s) = not (nat_eq (code c) b'=') && no_equals s

strip_padding-equals : (n : ℕ) → strip_padding (equals n) ≡ ""
unfolding strip_padding equals
strip_padding-equals zero = refl
strip_padding-equals (suc n) = rw (strip_padding-equals n) refl

pub strip_before_lem :
    (c : Char) (s : String) → nat_eq (code c) b'=' ≡ false → strip_before c s ≡ String.◌∷◌ c s
strip_before_lem c String.[] h = rw h refl
strip_before_lem c (String.◌∷◌ d s) h = refl

strip_padding-append :
    (s : String) (n : ℕ) → no_equals s ≡ true → strip_padding (s +++ equals n) ≡ s
unfolding strip_padding no_equals
strip_padding-append String.[] n h = rw (nil-append (equals n)) (strip_padding-equals n)
strip_padding-append (String.◌∷◌ c s) n h =
    rw
      (
        cons-append c s (equals n),
        strip_padding-append s n (and_right (not (nat_eq (code c) b'=')) _ h),
      )
      (strip_before_lem c s (ground arith))

no_equals_replaced :
    (s : String)
    → all_plain s ≡ true
    → no_equals (replace_all b'/' "_" (replace_all b'+' "-" s)) ≡ true
unfolding no_equals replace_all all_plain
no_equals_replaced String.[] h = refl
no_equals_replaced (String.◌∷◌ c s) h =
    let no_equals_sign : nat_eq (code c) b'=' ≡ false = ground arith in
    rw (no_equals_replaced s (and_right (is_plain (code c)) _ h))
      (elim (Bool-cases (nat_eq (code c) b'+')) [
        | inl e ↦ rw e refl
        | inr e ↦ elim (Bool-cases (nat_eq (code c) b'/')) [
          | inl f ↦ rw (e, f) refl
          | inr f ↦ rw (e, f, no_equals_sign) refl
        ]
      ])

-- Base64 text, its alphabet's characters and then at most two `=` that bring it to a multiple of four,
-- comes back from its URL-safe form, which has no padding.
pub to_standard-to_url_safe :
    (s : String) (n : ℕ)
    → all_plain s ≡ true
    → n ≤ 2
    → (text_length s + n) % 4 ≡ 0
    → to_standard (to_url_safe (s +++ equals n)) ≡ s +++ equals n
unfolding to_standard to_url_safe
to_standard-to_url_safe s n h l e =
    rw
      (
        replace_all-append b'+' "-" s (equals n),
        replace_all-equals b'+' "-" n refl,
        replace_all-append b'/' "_" _ (equals n),
        replace_all-equals b'/' "_" n refl,
        strip_padding-append _ n (no_equals_replaced s h),
        replaced_back s h,
      )
      (pad_loop_lem 3 n s (omega arith) (omega arith) e)
