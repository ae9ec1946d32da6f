-- ===== src/Sha256.antt =====
-- SHA-256 (packages/client/src/sha256.ts). A byte is a number below 256, a word one below 2 ^ 32;
-- `>>> 0` is `% 2 ^ 32`. The bitwise operators of the source give signed numbers: they count only
-- modulo 2 ^ 32, in sums that `>>> 0` or a Uint32Array takes up.
pub mod Laws
use Prim.Native.Nat.{bit_and, bit_or, bit_xor}
use hwfa.Common.{
  ℕ, zero, suc, ◌+◌, ◌-◌, ◌*◌, ◌/◌, ◌%◌, ◌^◌, List, [], ◌∷◌, ◌++◌, length, Option, none, some, ltb,
  leb, ◌&&◌, if◌then◌else◌,
}

abbrev pub word_mod : ℕ
word_mod = 2 ^ 32

-- `x >>> 0`.
abbrev pub to_word : ℕ → ℕ
to_word x = x % word_mod

-- The typed array's element; there is one wherever the code reads.
abbrev pub get_or : List ℕ → ℕ → ℕ
get_or [] i = 0
get_or (x ∷ xs) zero = x
get_or (x ∷ xs) (suc i) = get_or xs i

-- `K`.
abbrev pub round_constants : List ℕ
round_constants =
    0x428a2f98 ∷ 0x71374491 ∷ 0xb5c0fbcf ∷ 0xe9b5dba5 ∷ 0x3956c25b ∷ 0x59f111f1 ∷ 0x923f82a4
    ∷ 0xab1c5ed5 ∷ 0xd807aa98 ∷ 0x12835b01 ∷ 0x243185be ∷ 0x550c7dc3 ∷ 0x72be5d74 ∷ 0x80deb1fe
    ∷ 0x9bdc06a7 ∷ 0xc19bf174 ∷ 0xe49b69c1 ∷ 0xefbe4786 ∷ 0x0fc19dc6 ∷ 0x240ca1cc ∷ 0x2de92c6f
    ∷ 0x4a7484aa ∷ 0x5cb0a9dc ∷ 0x76f988da ∷ 0x983e5152 ∷ 0xa831c66d ∷ 0xb00327c8 ∷ 0xbf597fc7
    ∷ 0xc6e00bf3 ∷ 0xd5a79147 ∷ 0x06ca6351 ∷ 0x14292967 ∷ 0x27b70a85 ∷ 0x2e1b2138 ∷ 0x4d2c6dfc
    ∷ 0x53380d13 ∷ 0x650a7354 ∷ 0x766a0abb ∷ 0x81c2c92e ∷ 0x92722c85 ∷ 0xa2bfe8a1 ∷ 0xa81a664b
    ∷ 0xc24b8b70 ∷ 0xc76c51a3 ∷ 0xd192e819 ∷ 0xd6990624 ∷ 0xf40e3585 ∷ 0x106aa070 ∷ 0x19a4c116
    ∷ 0x1e376c08 ∷ 0x2748774c ∷ 0x34b0bcb5 ∷ 0x391c0cb3 ∷ 0x4ed8aa4a ∷ 0x5b9cca4f ∷ 0x682e6ff3
    ∷ 0x748f82ee ∷ 0x78a5636f ∷ 0x84c87814 ∷ 0x8cc70208 ∷ 0x90befffa ∷ 0xa4506ceb ∷ 0xbef9a3f7
    ∷ 0xc67178f2 ∷ []

unfoldable pub rotr : ℕ → ℕ → ℕ
rotr x n = bit_or (x / 2 ^ n) (to_word (x * 2 ^ (32 - n)))

abbrev pub xor3 : ℕ → ℕ → ℕ → ℕ
xor3 x y z = bit_xor (bit_xor x y) z

-- `~x`.
abbrev pub complement : ℕ → ℕ
complement x = (word_mod - 1) - x

-- The variables `a` to `h`, and `h0` to `h7`.
pub record Registers : Type 0 where
  pub a : ℕ
  pub b : ℕ
  pub c : ℕ
  pub d : ℕ
  pub e : ℕ
  pub f : ℕ
  pub g : ℕ
  pub h : ℕ

abbrev pub initial : Registers
initial = record {
  a = 0x6a09e667;
  b = 0xbb67ae85;
  c = 0x3c6ef372;
  d = 0xa54ff53a;
  e = 0x510e527f;
  f = 0x9b05688c;
  g = 0x1f83d9ab;
  h = 0x5be0cd19;
}

-- One pass of the loop over `t`, with `K[t]` and `w[t]`.
unfoldable pub round : Registers → ℕ → ℕ → Registers
unfolding rotr
round r k w =
    let s1 = xor3 (rotr r.e 6) (rotr r.e 11) (rotr r.e 25) in
    let ch = bit_xor (bit_and r.e r.f) (bit_and (complement r.e) r.g) in
    let temp1 = to_word (r.h + s1 + ch + k + w) in
    let s0 = xor3 (rotr r.a 2) (rotr r.a 13) (rotr r.a 22) in
    let maj = xor3 (bit_and r.a r.b) (bit_and r.a r.c) (bit_and r.b r.c) in
    let temp2 = to_word (s0 + maj) in
    record {
      a = to_word (temp1 + temp2);
      b = r.a;
      c = r.b;
      d = r.c;
      e = to_word (r.d + temp1);
      f = r.e;
      g = r.f;
      h = r.g;
    }

unfoldable pub rounds : Registers → List ℕ → List ℕ → Registers
rounds r [] w = r
rounds r (k ∷ ks) [] = r
rounds r (k ∷ ks) (w ∷ ws) = rounds (round r k w) ks ws

unfoldable pub add_registers : Registers → Registers → Registers
add_registers x y = record {
  a = to_word (x.a + y.a);
  b = to_word (x.b + y.b);
  c = to_word (x.c + y.c);
  d = to_word (x.d + y.d);
  e = to_word (x.e + y.e);
  f = to_word (x.f + y.f);
  g = to_word (x.g + y.g);
  h = to_word (x.h + y.h);
}

-- `setUint32(off, x, false)` writes these bytes.
unfoldable pub word_bytes : ℕ → List ℕ
word_bytes x = (x / 2 ^ 24) % 256 ∷ (x / 2 ^ 16) % 256 ∷ (x / 2 ^ 8) % 256 ∷ x % 256 ∷ []

-- `getUint32(off, false)`.
unfoldable pub get_word : List ℕ → ℕ → ℕ
get_word buf off =
    get_or buf off * 2 ^ 24
    + get_or buf (off + 1) * 2 ^ 16
    + get_or buf (off + 2) * 2 ^ 8
    + get_or buf (off + 3)

-- `w[0]` to `w[n - 1]` of a block, the last first.
unfoldable pub block_words : List ℕ → ℕ → ℕ → List ℕ
unfolding get_word
block_words buf off zero = []
block_words buf off (suc t) = get_word buf (off + t * 4) ∷ block_words buf off t

-- The next `n` words; `w` has the last first, so `w[t - 2]` stands at 1.
unfoldable pub extend : ℕ → List ℕ → List ℕ
unfolding rotr
extend zero w = w
extend (suc n) w =
    let x15 = get_or w 14 in
    let x2 = get_or w 1 in
    let s0 = xor3 (rotr x15 7) (rotr x15 18) (x15 / 2 ^ 3) in
    let s1 = xor3 (rotr x2 17) (rotr x2 19) (x2 / 2 ^ 10) in
    extend n (to_word (get_or w 15 + s0 + get_or w 6 + s1) ∷ w)

unfoldable pub reverse_onto : List ℕ → List ℕ → List ℕ
reverse_onto [] ys = ys
reverse_onto (x ∷ xs) ys = reverse_onto xs (x ∷ ys)

-- One pass of the loop over `off`.
unfoldable pub compress : List ℕ → ℕ → Registers → Registers
unfolding block_words extend reverse_onto rounds round add_registers
compress buf off r =
    let w = reverse_onto (extend 48 (block_words buf off 16)) [] in
    add_registers r (rounds r round_constants w)

-- The `n` blocks from `off` on.
unfoldable pub blocks : ℕ → List ℕ → ℕ → Registers → Registers
unfolding compress
blocks zero buf off r = r
blocks (suc n) buf off r = blocks n buf (off + 64) (compress buf off r)

unfoldable pub zeros : ℕ → List ℕ
zeros zero = []
zeros (suc n) = 0 ∷ zeros n

-- `buf.set(xs, off)`; the bytes written are within the buffer.
unfoldable pub write : ℕ → List ℕ → List ℕ → List ℕ
write zero [] buf = buf
write zero (x ∷ xs) [] = []
write zero (x ∷ xs) (b ∷ buf) = x ∷ write zero xs buf
write (suc off) xs [] = []
write (suc off) xs (b ∷ buf) = b ∷ write off xs buf

-- `(((ml + 8) >> 6) + 1) << 6`, on 32 bits with a sign: the pattern of the bits. The sign that `>>`
-- keeps is shifted out again.
abbrev pub padded_length : ℕ → ℕ
padded_length ml = to_word ((to_word (ml + 8) / 2 ^ 6 + 1) * 2 ^ 6)

-- The buffer of this length, with the four writes.
unfoldable pub padded_buffer : List ℕ → ℕ → List ℕ
unfolding zeros write word_bytes
padded_buffer data' padded =
    let ml = length data' in
    let bit_len = ml * 8 in
    let buf = write 0 data' (zeros padded) in
    let buf = write ml (0x80 ∷ []) buf in
    let buf = write (padded - 8) (word_bytes (bit_len / word_mod)) buf in
    write (padded - 4) (word_bytes (to_word bit_len)) buf

-- It throws, and there is none, for a negative length and for data that do not fit.
unfoldable pub pad : List ℕ → Option (List ℕ)
unfolding padded_buffer
pad data' =
    let padded = padded_length (length data') in
    if ltb padded (2 ^ 31) && leb (length data') padded
    then some (padded_buffer data' padded)
    else none

unfoldable pub put_words : List ℕ → List ℕ
unfolding word_bytes
put_words [] = []
put_words (x ∷ xs) = word_bytes x ++ put_words xs

unfoldable pub digest : Registers → List ℕ
unfolding put_words
digest r = put_words (r.a ∷ r.b ∷ r.c ∷ r.d ∷ r.e ∷ r.f ∷ r.g ∷ r.h ∷ [])

-- No bytes where it throws; a digest has 32.
unfoldable pub sha256 : List ℕ → List ℕ
unfolding pad blocks digest
sha256 data' = elim (pad data') [
  | none ↦ []
  | some buf ↦ digest (blocks (padded_length (length data') / 64) buf 0 initial)
]
