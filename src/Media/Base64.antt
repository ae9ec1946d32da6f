-- ===== src/Media/Base64.antt =====
-- The base64 of the app's media cipher (apps/mobile/src/media/rnMediaCipher.ts: bytesToBase64,
-- base64ToBytes; apps/mobile/src/media/mediaService.ts: toDataUri). A byte is a number below 256.
-- JavaScript computes `<<`, `>>` and `|` on 32 bits with a sign: the accumulator is kept as the
-- pattern of its bits, below 2 ^ 32.
pub mod Letters
pub mod Laws
use Prim.Native.Char.{Char, code}
use Prim.Native.Nat.{bit_or}
use Prim.Native.String
use hwfa.Common.{
  ℕ, zero, suc, ◌+◌, ◌-◌, ◌*◌, ◌/◌, ◌%◌, ◌^◌, List, [], ◌∷◌, String, nat_eq, ltb, leb,
  if◌then◌else◌,
}
use hwfa.Common.Text.{◌+++◌, text_length}
use hwfa.Base64Url.{strip_padding}

abbrev pub alphabet : String
alphabet = "ABCDEFGHIJKLMNOPQRSTUVWXYZabcdefghijklmnopqrstuvwxyz0123456789+/"

-- What `out += s[i]` adds: a missing character is the text "undefined".
unfoldable pub letter_at : String → ℕ → String
letter_at String.[] i = "undefined"
letter_at (String.◌∷◌ c s) zero = String.◌∷◌ c String.[]
letter_at (String.◌∷◌ c s) (suc i) = letter_at s i

abbrev pub letter : ℕ → String
letter i = letter_at alphabet i

unfoldable pub bytes_to_base64 : List ℕ → String
bytes_to_base64 [] = ""
bytes_to_base64 (b0 ∷ []) =
    letter (b0 / 4) +++ letter (bit_or (b0 % 4 * 16) (0 / 16)) +++ "=" +++ "="
bytes_to_base64 (b0 ∷ b1 ∷ []) =
    letter (b0 / 4)
    +++ letter (bit_or (b0 % 4 * 16) (b1 / 16))
    +++ letter (bit_or (b1 % 16 * 4) (0 / 64))
    +++ "="
bytes_to_base64 (b0 ∷ b1 ∷ b2 ∷ bytes) =
    letter (b0 / 4)
    +++ letter (bit_or (b0 % 4 * 16) (b1 / 16))
    +++ letter (bit_or (b1 % 16 * 4) (b2 / 64))
    +++ letter (b2 % 64)
    +++ bytes_to_base64 bytes

-- `LOOKUP[c]`, from the index `i` on: `|` reads a missing one as 0.
unfoldable pub lookup_from : ℕ → String → Char → ℕ
lookup_from i String.[] c = 0
lookup_from i (String.◌∷◌ d s) c = if nat_eq (code c) (code d) then i else lookup_from (suc i) s c

abbrev pub lookup : Char → ℕ
lookup c = lookup_from 0 alphabet c

-- `(acc << 6) | v`.
abbrev pub push_six : ℕ → ℕ → ℕ
push_six acc v = bit_or (acc * 64 % 2 ^ 32) v

-- `acc >> k`, which keeps the sign.
abbrev pub shift_right : ℕ → ℕ → ℕ
shift_right acc k = if ltb acc (2 ^ 31) then acc / 2 ^ k else acc / 2 ^ k + (2 ^ 32 - 2 ^ (32 - k))

-- `if (bits >= 8) bits -= 8`.
abbrev pub kept_bits : ℕ → ℕ
kept_bits bits = if leb 8 bits then bits - 8 else bits

-- What the loop writes to `out`, from `acc` and `bits` on.
unfoldable pub decode_loop : String → ℕ → ℕ → List ℕ
decode_loop String.[] acc bits = []
decode_loop (String.◌∷◌ c s) acc bits =
    let acc' = push_six acc (lookup c) in
    let bits' = bits + 6 in
    let rest = decode_loop s acc' (kept_bits bits') in
    if leb 8 bits' then shift_right acc' (bits' - 8) % 256 ∷ rest else rest

-- An array of `len` bytes after the writes: later ones are lost, and bytes not written are 0.
unfoldable pub fill : ℕ → List ℕ → List ℕ
fill zero written = []
fill (suc len) [] = 0 ∷ fill len []
fill (suc len) (b ∷ written) = b ∷ fill len written

unfoldable pub base64_to_bytes : String → List ℕ
base64_to_bytes b64 =
    let clean = strip_padding b64 in fill (text_length clean * 6 / 8) (decode_loop clean 0 0)

unfoldable pub to_data_uri : List ℕ → String → String
to_data_uri bytes mime = "data:" +++ mime +++ ";base64," +++ bytes_to_base64 bytes
