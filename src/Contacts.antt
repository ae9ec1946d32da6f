-- ===== src/Contacts.antt =====
-- Phone numbers for contact discovery (apps/mobile/src/contacts/normalize.ts). `trim` is left out:
-- white space goes with all else that is not kept. A text is as long as it has characters.
pub mod Laws
mod Tests
use Prim.Native.Char.{code}
use Prim.Native.String
use hwfa.Common.{
  ℕ, suc, Bool, true, false, ◌&&◌, ◌||◌, Option, none, some, List, [], ◌∷◌, String, ◌==◌, leb, ltb,
  nat_eq, if◌then◌else◌,
}
use hwfa.Common.Text.{◌+++◌, text_length, starts_with, slice_after}
use hwfa.Common.Sort.{sort_desc}

abbrev pub is_digit : ℕ → Bool
is_digit c = leb b'0' c && leb c b'9'

abbrev pub is_phone_char : ℕ → Bool
is_phone_char c = is_digit c || nat_eq c b'+'

-- `replace(/[^…]/g, '')`.
unfoldable pub keep : (ℕ → Bool) → String → String
keep p String.[] = String.[]
keep p (String.◌∷◌ c s) = let rest = keep p s in if p (code c) then String.◌∷◌ c rest else rest

-- `KNOWN_CALLING_CODES`.
abbrev pub known_calling_codes : List String
known_calling_codes =
    "234" ∷ "254" ∷ "233" ∷ "256" ∷ "255" ∷ "250" ∷ "260" ∷ "263" ∷ "27" ∷ "212" ∷ "20" ∷ "251"
    ∷ "225" ∷ "221" ∷ "44" ∷ "1" ∷ "91" ∷ "971" ∷ "966" ∷ []

unfoldable pub first_prefix : String → List String → Option String
first_prefix digits [] = none
first_prefix digits (prefix ∷ prefixes) =
    if starts_with digits prefix then some prefix else first_prefix digits prefixes

-- The longest known code that the number starts with.
unfoldable pub calling_code_of : String → Option String
unfolding first_prefix keep text_length
calling_code_of e164 = first_prefix (keep is_digit e164) (sort_desc text_length known_calling_codes)

-- A default code that is absent or empty is none.
unfoldable pub with_default : Option String → String → String
with_default none national = "+" +++ national
with_default (some default_code) national =
    if default_code == "" then "+" +++ national else "+" +++ default_code +++ national

abbrev pub has_default : Option String → Bool
has_default none = false
has_default (some default_code) = if default_code == "" then false else true

-- The number in international form, before its length is looked at; `s` has digits and `+` only.
unfoldable pub international : String → Option String → String
unfolding keep with_default
international s default_code =
    if starts_with s "+"
    then "+" +++ keep is_digit (slice_after s "+")
    else if starts_with s "00"
    then "+" +++ slice_after s "00"
    else if starts_with s "0" && has_default default_code
    then with_default default_code (slice_after s "0")
    else with_default default_code s

unfoldable pub normalize_e164 : String → Option String → Option String
normalize_e164 raw default_code =
    if raw == ""
    then none
    else (let s = international (keep is_phone_char raw) default_code in
        let n = text_length (slice_after s "+") in if ltb n 7 || ltb 15 n then none else some s)
