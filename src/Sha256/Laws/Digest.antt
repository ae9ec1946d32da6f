-- ===== src/Sha256/Laws/Digest.antt =====
-- The registers and the digest of SHA-256.
use hwfa.Common.{
  ℕ, zero, suc, ◌+◌, ◌/◌, ◌<◌, ◌≡◌, refl, arith, List, [], ◌∷◌, length, All, All-append, some,
}
use hwfa.Sha256.{
  word_mod, Registers, initial, add_registers, word_bytes, get_word, compress, blocks,
  padded_length, pad, put_words, digest, sha256,
}

-- Each variable is a word of 32 bits.
abbrev pub IsWords : Registers → Type 0
IsWords r =
    (r.a < word_mod)
    × (r.b < word_mod)
    × (r.c < word_mod)
    × (r.d < word_mod)
    × (r.e < word_mod)
    × (r.f < word_mod)
    × (r.g < word_mod)
    × (r.h < word_mod)

add_registers-IsWords : (x y : Registers) → IsWords (add_registers x y)
unfolding add_registers
add_registers-IsWords x y = (
  omega arith,
  omega arith,
  omega arith,
  omega arith,
  omega arith,
  omega arith,
  omega arith,
  omega arith,
)

compress-IsWords : (buf : List ℕ) (off : ℕ) (r : Registers) → IsWords (compress buf off r)
unfolding compress
compress-IsWords buf off r = add_registers-IsWords r _

blocks-IsWords :
    (n : ℕ) (buf : List ℕ) (off : ℕ) (r : Registers) → IsWords r → IsWords (blocks n buf off r)
unfolding blocks
blocks-IsWords zero buf off r h = h
blocks-IsWords (suc n) buf off r h =
    blocks-IsWords n buf (off + 64) (compress buf off r) (compress-IsWords buf off r)

initial-IsWords : IsWords initial
initial-IsWords = (
  omega arith,
  omega arith,
  omega arith,
  omega arith,
  omega arith,
  omega arith,
  omega arith,
  omega arith,
)

-- The variables `h0` to `h7` after the last block.
unfoldable pub final : List ℕ → List ℕ → Registers
final xs buf = blocks (padded_length (length xs) / 64) buf 0 initial

final-IsWords : (xs buf : List ℕ) → IsWords (final xs buf)
unfolding final
final-IsWords xs buf = blocks-IsWords _ _ 0 initial initial-IsWords

abbrev pub IsByte : ℕ → Type 0
IsByte b = b < 256

word_bytes-IsByte : (x : ℕ) → All IsByte (word_bytes x)
unfolding word_bytes
word_bytes-IsByte x = (omega arith, (omega arith, (omega arith, (omega arith, tt))))

put_words-IsByte : (xs : List ℕ) → All IsByte (put_words xs)
unfolding put_words
put_words-IsByte [] = tt
put_words-IsByte (x ∷ xs) =
    All-append IsByte (word_bytes x) (put_words xs) (word_bytes-IsByte x) (put_words-IsByte xs)

digest_bytes : (r : Registers) → (length (digest r) ≡ 32) × All IsByte (digest r)
unfolding digest put_words word_bytes
digest_bytes r = (refl, put_words-IsByte (r.a ∷ r.b ∷ r.c ∷ r.d ∷ r.e ∷ r.f ∷ r.g ∷ r.h ∷ []))

digest_words :
    (r : Registers)
    → IsWords r
    → (get_word (digest r) 0 ≡ r.a)
      × (get_word (digest r) 4 ≡ r.b)
      × (get_word (digest r) 8 ≡ r.c)
      × (get_word (digest r) 12 ≡ r.d)
      × (get_word (digest r) 16 ≡ r.e)
      × (get_word (digest r) 20 ≡ r.f)
      × (get_word (digest r) 24 ≡ r.g)
      × (get_word (digest r) 28 ≡ r.h)
unfolding digest put_words word_bytes get_word
digest_words r (a, b, c, d, e, f, g, h) = (
  omega arith,
  omega arith,
  omega arith,
  omega arith,
  omega arith,
  omega arith,
  omega arith,
  omega arith,
)

-- Where padding does not throw, the digest is 32 bytes, and it holds the eight variables whole: reading its words gives them back.
sha256_digest :
    (xs buf : List ℕ)
    → pad xs ≡ some buf
    → let r = final xs buf in
      (length (sha256 xs) ≡ 32)
      × All IsByte (sha256 xs)
      × (get_word (sha256 xs) 0 ≡ r.a)
      × (get_word (sha256 xs) 4 ≡ r.b)
      × (get_word (sha256 xs) 8 ≡ r.c)
      × (get_word (sha256 xs) 12 ≡ r.d)
      × (get_word (sha256 xs) 16 ≡ r.e)
      × (get_word (sha256 xs) 20 ≡ r.f)
      × (get_word (sha256 xs) 24 ≡ r.g)
      × (get_word (sha256 xs) 28 ≡ r.h)
unfolding sha256 final
sha256_digest xs buf e =
    let (l, all) = digest_bytes (final xs buf) in
    let (a, b, c, d, f, g, h, i) = digest_words (final xs buf) (final-IsWords xs buf) in
    rw (e, sha256) (l, all, a, b, c, d, f, g, h, i)
