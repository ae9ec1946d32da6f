-- ===== src/Common/Text.antt =====
-- Prefixes of strings: `startsWith`, and `slice(prefix.length)`.
use Prim.Native.Char.{code}
use Prim.Native.Nat.{ℕ, zero, suc, ◌+◌}
use Prim.Native.String
use Prim.Native.String.{String}
use mathlib.Core.Path.{◌≡◌, refl}
use mathlib.Core.Bool.{Bool, true, false, ◌&&◌, ◌||◌, not}
use native.Mathlib.Omega.{arith}
use text.Mathlib.TextLemmas.{nil-append, cons-append}
use hwfa.Common.Tests.{nat_eq, leb, ◌==◌, if◌then◌else◌}

infixr 65 ◌+++◌
-- `s + t` on strings.
abbrev pub ◌+++◌ : String → String → String
s +++ t = String.◌++◌ s t

unfoldable pub starts_with : String → String → Bool
starts_with s String.[] = true
starts_with String.[] (String.◌∷◌ d p) = false
starts_with (String.◌∷◌ c s) (String.◌∷◌ d p) = nat_eq (code c) (code d) && starts_with s p

-- The number of characters.
unfoldable pub text_length : String → ℕ
text_length String.[] = 0
text_length (String.◌∷◌ c s) = suc (text_length s)

-- `s.slice(p.length)`.
unfoldable pub slice_after : String → String → String
slice_after s String.[] = s
slice_after String.[] (String.◌∷◌ d p) = String.[]
slice_after (String.◌∷◌ c s) (String.◌∷◌ d p) = slice_after s p

-- The two strings differ at a position that both have.
unfoldable pub clash : String → String → Bool
clash (String.◌∷◌ c s) (String.◌∷◌ d p) = not (nat_eq (code c) (code d)) || clash s p
clash _ _ = false

pub starts_with-append : (p s : String) → starts_with (p +++ s) p ≡ true
unfolding starts_with
starts_with-append String.[] s = refl
starts_with-append (String.◌∷◌ c p) s = rw cons-append (ground (arith, starts_with-append p s))

pub slice_after-append : (p s : String) → slice_after (p +++ s) p ≡ s
unfolding slice_after
slice_after-append String.[] s = nil-append s
slice_after-append (String.◌∷◌ c p) s = rw cons-append (slice_after-append p s)

pub starts_with_of_clash : (p s q : String) → clash p q ≡ true → starts_with (p +++ s) q ≡ false
unfolding starts_with clash
starts_with_of_clash (String.◌∷◌ c p) s (String.◌∷◌ d q) h =
    rw cons-append (ground (arith, starts_with_of_clash p s q))
starts_with_of_clash _ s q h = cc

pub text_length-append : (s t : String) → text_length (s +++ t) ≡ text_length s + text_length t
unfolding text_length
text_length-append String.[] t = rw nil-append (omega arith)
text_length-append (String.◌∷◌ c s) t = rw cons-append (omega (arith, text_length-append s t))

-- The white space and the line ends of JavaScript.
abbrev is_space : ℕ → Bool
is_space c =
    leb 9 c && leb c 13
    || nat_eq c 32
    || nat_eq c 160
    || nat_eq c 5760
    || leb 8192 c && leb c 8202
    || nat_eq c 8232
    || nat_eq c 8233
    || nat_eq c 8239
    || nat_eq c 8287
    || nat_eq c 12288
    || nat_eq c 65279

trim_start : String → String
trim_start String.[] = String.[]
trim_start (String.◌∷◌ c s) =
    let rest = trim_start s in if is_space (code c) then rest else String.◌∷◌ c s

trim_end : String → String
trim_end String.[] = String.[]
trim_end (String.◌∷◌ c s) =
    let rest = trim_end s in
    if rest == "" && is_space (code c) then String.[] else String.◌∷◌ c rest

-- `s.trim()`.
unfoldable pub trim : String → String
unfolding trim_start trim_end
trim s = trim_end (trim_start s)

-- `s.slice(0, n)`.
unfoldable pub take_text : ℕ → String → String
take_text zero s = String.[]
take_text (suc n) String.[] = String.[]
take_text (suc n) (String.◌∷◌ c s) = String.◌∷◌ c (take_text n s)

-- `padStart` with zeros, by their number.
unfoldable pub add_zeros : ℕ → String → String
add_zeros zero s = s
add_zeros (suc n) s = "0" +++ add_zeros n s

pub length-add_zeros : (n : ℕ) (s : String) → text_length (add_zeros n s) ≡ n + text_length s
unfolding add_zeros text_length
length-add_zeros zero s = omega arith
length-add_zeros (suc n) s =
    omega (arith, length-add_zeros n s, text_length-append "0" (add_zeros n s))
