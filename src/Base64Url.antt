-- ===== src/Base64Url.antt =====
-- URL-safe base64 (packages/client/src/discovery.ts: decodeBase64Url; packages/client/src/client.ts:
-- base64UrlEncode, base64UrlDecode): the characters that are replaced and the padding. `atob` and
-- `btoa` themselves are not modelled. A text is as long as it has characters.
pub mod Laws
use Prim.Native.Char.{Char, code}
use Prim.Native.String
use hwfa.Common.{ℕ, zero, suc, ◌-◌, ◌%◌, String, nat_eq, if◌then◌else◌}
use hwfa.Common.Text.{◌+++◌, text_length}

-- `replace(/a/g, b)` for single characters.
abbrev pub replace_char : ℕ → Char → Char → Char
replace_char a b c = if nat_eq (code c) a then b else c

unfoldable pub replace_all : ℕ → Char → String → String
replace_all a b String.[] = String.[]
replace_all a b (String.◌∷◌ c s) = String.◌∷◌ (replace_char a b c) (replace_all a b s)

-- `while (b64.length % 4) b64 += "="`.
unfoldable pub pad_loop : ℕ → String → String
pad_loop zero b64 = b64
pad_loop (suc fuel) b64 =
    let more = pad_loop fuel (b64 +++ "=") in if nat_eq (text_length b64 % 4) 0 then b64 else more

-- The standard base64 that `atob` is given.
unfoldable pub to_standard : String → String
to_standard s = pad_loop 3 (replace_all b'_' "/" (replace_all b'-' "+" s))

-- `replace(/=+$/, "")`: a `=` before what is left is kept, one before nothing goes.
abbrev pub strip_before : Char → String → String
strip_before c String.[] = if nat_eq (code c) b'=' then String.[] else String.◌∷◌ c String.[]
strip_before c (String.◌∷◌ d rest) = String.◌∷◌ c (String.◌∷◌ d rest)

unfoldable pub strip_padding : String → String
strip_padding String.[] = String.[]
strip_padding (String.◌∷◌ c s) = strip_before c (strip_padding s)

-- What is done to the text that `btoa` returns.
unfoldable pub to_url_safe : String → String
to_url_safe b64 = strip_padding (replace_all b'/' "_" (replace_all b'+' "-" b64))
