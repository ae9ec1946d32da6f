-- ===== src/Utf8.antt =====
-- UTF-8 without TextEncoder (packages/client/src/client.ts: utf8Encode, utf8Decode). A string is the
-- list of its 16-bit code units; `x & 0x3f` is `x % 64`, `x >> 6` is `x / 64`, and so on.
pub mod Laws
use Prim.Native.Nat.{bit_or}
use hwfa.Common.{
  ℕ, zero, suc, ◌+◌, ◌-◌, ◌*◌, ◌/◌, ◌%◌, Bool, ◌&&◌, Option, none, some, List, [], ◌∷◌, ◌++◌,
  length, leb, ltb, if◌then◌else◌,
}

abbrev pub is_high : ℕ → Bool
is_high c = leb 0xd800 c && leb c 0xdbff

-- A unit that is not the first of a pair.
unfoldable pub encode_unit : ℕ → List ℕ
encode_unit c =
    if ltb c 0x80
    then c ∷ []
    else if ltb c 0x800
    then bit_or 0xc0 (c / 64) ∷ bit_or 0x80 (c % 64) ∷ []
    else bit_or 0xe0 (c / 4096) ∷ bit_or 0x80 ((c / 64) % 64) ∷ bit_or 0x80 (c % 64) ∷ []

abbrev pub code_point : ℕ → ℕ → ℕ
code_point hi lo = 0x10000 + (hi % 1024) * 1024 + lo % 1024

unfoldable pub encode_pair : ℕ → ℕ → List ℕ
encode_pair hi lo =
    let code = code_point hi lo in
    bit_or 0xf0 (code / 262144)
    ∷ bit_or 0x80 ((code / 4096) % 64)
    ∷ bit_or 0x80 ((code / 64) % 64)
    ∷ bit_or 0x80 (code % 64)
    ∷ []

-- The loop; `pending` is a first half whose second half is read next. Past the end `charCodeAt` gives
-- NaN, and `NaN & 0x3ff` is 0.
unfoldable pub utf8_from : Option ℕ → List ℕ → List ℕ
unfolding encode_unit encode_pair
utf8_from none [] = []
utf8_from (some hi) [] = encode_pair hi 0
utf8_from (some hi) (lo ∷ cs) = encode_pair hi lo ++ utf8_from none cs
utf8_from none (c ∷ cs) =
    (if is_high c then [] else encode_unit c) ++ utf8_from (if is_high c then some c else none) cs

unfoldable pub utf8_encode : List ℕ → List ℕ
utf8_encode str = utf8_from none str

-- `bytes[i++]! & 0x3f`; past the end the byte is undefined, and `undefined & 0x3f` is 0.
abbrev pub next_six : List ℕ → ℕ × List ℕ
next_six [] = (0, [])
next_six (b ∷ bytes) = (b % 64, bytes)

-- One pass of the loop: the units of a first byte and those that follow it, and the bytes left. As
-- 0x10000 is 64 times 1024, the subtraction from `cp` only shows in the first unit.
unfoldable pub decode_one : ℕ → List ℕ → List ℕ × List ℕ
decode_one b0 bytes =
    let (b1, rest1) = next_six bytes in
    let (b2, rest2) = next_six rest1 in
    let (b3, rest3) = next_six rest2 in
    let cp = bit_or (bit_or (bit_or (b0 % 8 * 262144) (b1 * 4096)) (b2 * 64)) b3 in
    if ltb b0 0x80
    then (b0 ∷ [], bytes)
    else if ltb b0 0xe0
    then (bit_or (b0 % 32 * 64) b1 ∷ [], rest1)
    else if ltb b0 0xf0
    then (bit_or (bit_or (b0 % 16 * 4096) (b1 * 64)) b2 ∷ [], rest2)
    else (((0xd800 + cp / 1024) - 64) ∷ (0xdc00 + cp % 1024) ∷ [], rest3)

-- Each pass takes a byte, so as many passes as there are bytes are enough.
unfoldable pub decode_loop : ℕ → List ℕ → List ℕ
decode_loop zero bytes = []
decode_loop (suc fuel) [] = []
decode_loop (suc fuel) (b0 ∷ bytes) =
    let (units, rest) = decode_one b0 bytes in units ++ decode_loop fuel rest

unfoldable pub utf8_decode : List ℕ → List ℕ
utf8_decode bytes = decode_loop (length bytes) bytes
