-- ===== src/Media/Base64/Laws.antt =====
-- Bytes come back from their base64.
use Prim.Native.Nat.{bit_or}
use text.Mathlib.TextLemmas.{nil-append, cons-append}
use hwfa.Common.{
  ℕ, suc, ◌+◌, ◌*◌, ◌/◌, ◌%◌, ◌<◌, true, ◌≡◌, refl, ap, ◌∙◌, arith, All, List, length, [], ◌∷◌,
  String,
}
use hwfa.Common.Text.{◌+++◌, text_length}
use hwfa.Base64Url.{strip_padding}
use hwfa.Media.Base64.Letters.{
  reads_back, letter-reads_back, bit_or_four, bit_or_two, push_six_lem, strip_padding-text,
  first_letters, third_letter, fourth_letter,
}
use hwfa.Media.Base64.{letter, bytes_to_base64, push_six, decode_loop, fill, base64_to_bytes}

-- The values of the second and the third letter of a group.
abbrev second : ℕ → ℕ → ℕ
second a b = bit_or (a % 4 * 16) (b / 16)

abbrev third : ℕ → ℕ → ℕ
third b c = bit_or (b % 16 * 4) (c / 64)

second_lem : (a b : ℕ) → b < 256 → second a b ≡ a % 4 * 16 + b / 16
second_lem a b h = bit_or_four (a % 4) (b / 16) (omega arith)

third_lem : (b c : ℕ) → c < 256 → third b c ≡ b % 16 * 4 + c / 64
third_lem b c h = bit_or_two (b % 16) (c / 64) (omega arith)

abbrev pub IsByte : ℕ → Type 0
IsByte b = b < 256

-- The text without its padding.
unpadded : List ℕ → String
unpadded [] = ""
unpadded (b0 ∷ []) = letter (b0 / 4) +++ letter (second b0 0) +++ ""
unpadded (b0 ∷ b1 ∷ []) = letter (b0 / 4) +++ letter (second b0 b1) +++ letter (third b1 0) +++ ""
unpadded (b0 ∷ b1 ∷ b2 ∷ bytes) =
    letter (b0 / 4)
    +++ letter (second b0 b1)
    +++ letter (third b1 b2)
    +++ letter (b2 % 64)
    +++ unpadded bytes

first-reads_back : (a : ℕ) → a < 256 → reads_back (letter (a / 4)) (a / 4) ≡ true
first-reads_back a h = letter-reads_back (a / 4) (omega arith)

second-reads_back : (a b : ℕ) → b < 256 → reads_back (letter (second a b)) (second a b) ≡ true
second-reads_back a b h = letter-reads_back (second a b) (omega (arith, second_lem a b h))

third-reads_back : (b c : ℕ) → c < 256 → reads_back (letter (third b c)) (third b c) ≡ true
third-reads_back b c h = letter-reads_back (third b c) (omega (arith, third_lem b c h))

fourth-reads_back : (c : ℕ) → reads_back (letter (c % 64)) (c % 64) ≡ true
fourth-reads_back c = letter-reads_back (c % 64) (omega arith)

strip_padding-bytes_to_base64 :
    (bytes : List ℕ) → All IsByte bytes → strip_padding (bytes_to_base64 bytes) ≡ unpadded bytes
unfolding bytes_to_base64 unpadded strip_padding
strip_padding-bytes_to_base64 [] h = refl
strip_padding-bytes_to_base64 (b0 ∷ []) (h0, h) = rw (
  strip_padding-text _ _ _ (first-reads_back b0 h0),
  strip_padding-text _ _ _ (second-reads_back b0 0 (omega arith)),
)
strip_padding-bytes_to_base64 (b0 ∷ b1 ∷ []) (h0, (h1, h)) = rw (
  strip_padding-text _ _ _ (first-reads_back b0 h0),
  strip_padding-text _ _ _ (second-reads_back b0 b1 h1),
  strip_padding-text _ _ _ (third-reads_back b1 0 (omega arith)),
)
strip_padding-bytes_to_base64 (b0 ∷ b1 ∷ b2 ∷ bytes) (h0, (h1, (h2, h))) = rw (
  strip_padding-text _ _ _ (first-reads_back b0 h0),
  strip_padding-text _ _ _ (second-reads_back b0 b1 h1),
  strip_padding-text _ _ _ (third-reads_back b1 b2 h2),
  strip_padding-text _ _ _ (fourth-reads_back b2),
  strip_padding-bytes_to_base64 bytes h,
)

push_six_low : (acc v : ℕ) → v < 64 → push_six acc v % 64 ≡ v
push_six_low acc v h = omega (arith, push_six_lem acc v h)

second_lt : (a b : ℕ) → b < 256 → second a b < 64
second_lt a b h = omega (arith, second_lem a b h)

third_lt : (b c : ℕ) → c < 256 → third b c < 64
third_lt b c h = omega (arith, third_lem b c h)

-- The accumulator after the first two letters, and after three.
abbrev after_two : ℕ → ℕ → ℕ → ℕ
after_two acc b0 b1 = push_six (push_six acc (b0 / 4)) (second b0 b1)

abbrev after_three : ℕ → ℕ → ℕ → ℕ → ℕ
after_three acc b0 b1 b2 = push_six (after_two acc b0 b1) (third b1 b2)

one_byte :
    (b0 b1 acc : ℕ) (s : String)
    → b0 < 256
    → b1 < 256
    → decode_loop (letter (b0 / 4) +++ letter (second b0 b1) +++ s) acc 0
      ≡ b0 ∷ decode_loop s (after_two acc b0 b1) 4
one_byte b0 b1 acc s h0 h1 =
    let byte : b0 / 4 * 4 + second b0 b1 / 16 ≡ b0 = omega (arith, second_lem b0 b1 h1) in
    first_letters _ _ s (b0 / 4) (second b0 b1) acc (first-reads_back b0 h0)
      (second-reads_back b0 b1 h1) (omega arith) (second_lt b0 b1 h1)
    ∙ ap (λ b. b ∷ decode_loop s (after_two acc b0 b1) 4) byte

two_bytes :
    (b0 b1 b2 acc : ℕ) (s : String)
    → b0 < 256
    → b1 < 256
    → b2 < 256
    → decode_loop (letter (b0 / 4) +++ letter (second b0 b1) +++ letter (third b1 b2) +++ s) acc 0
      ≡ b0 ∷ b1 ∷ decode_loop s (after_three acc b0 b1 b2) 2
two_bytes b0 b1 b2 acc s h0 h1 h2 =
    let byte : after_two acc b0 b1 % 16 * 16 + third b1 b2 / 4 ≡ b1 = omega (
      arith,
      second_lem b0 b1 h1,
      third_lem b1 b2 h2,
      push_six_low (push_six acc (b0 / 4)) (second b0 b1) (second_lt b0 b1 h1),
    ) in
    one_byte b0 b1 acc (letter (third b1 b2) +++ s) h0 h1
    ∙ ap (λ r. b0 ∷ r)
        (third_letter _ s (third b1 b2) (after_two acc b0 b1) (third-reads_back b1 b2 h2)
            (third_lt b1 b2 h2)
          ∙ ap (λ b. b ∷ decode_loop s (after_three acc b0 b1 b2) 2) byte)

three_bytes :
    (b0 b1 b2 acc : ℕ) (s : String)
    → b0 < 256
    → b1 < 256
    → b2 < 256
    → decode_loop
        (letter (b0 / 4)
          +++ letter (second b0 b1)
          +++ letter (third b1 b2)
          +++ letter (b2 % 64)
          +++ s)
        acc
        0
      ≡ b0 ∷ b1 ∷ b2 ∷ decode_loop s (push_six (after_three acc b0 b1 b2) (b2 % 64)) 0
three_bytes b0 b1 b2 acc s h0 h1 h2 =
    let byte : after_three acc b0 b1 b2 % 4 * 64 + b2 % 64 ≡ b2 = omega (
      arith,
      third_lem b1 b2 h2,
      push_six_low (after_two acc b0 b1) (third b1 b2) (third_lt b1 b2 h2),
    ) in
    two_bytes b0 b1 b2 acc (letter (b2 % 64) +++ s) h0 h1 h2
    ∙ ap (λ r. b0 ∷ b1 ∷ r)
        (fourth_letter _ s (b2 % 64) (after_three acc b0 b1 b2) (fourth-reads_back b2) (omega arith)
          ∙ ap (λ b. b ∷ decode_loop s (push_six (after_three acc b0 b1 b2) (b2 % 64)) 0) byte)

decode_loop-unpadded :
    (bytes : List ℕ) (acc : ℕ) → All IsByte bytes → decode_loop (unpadded bytes) acc 0 ≡ bytes
unfolding unpadded decode_loop
decode_loop-unpadded [] acc h = refl
decode_loop-unpadded (b0 ∷ []) acc (h0, h) = one_byte b0 0 acc "" h0 (omega arith)
decode_loop-unpadded (b0 ∷ b1 ∷ []) acc (h0, (h1, h)) = two_bytes b0 b1 0 acc "" h0 h1 (omega arith)
decode_loop-unpadded (b0 ∷ b1 ∷ b2 ∷ bytes) acc (h0, (h1, (h2, h))) =
    three_bytes b0 b1 b2 acc (unpadded bytes) h0 h1 h2
    ∙ ap (λ r. b0 ∷ b1 ∷ b2 ∷ r)
        (decode_loop-unpadded bytes (push_six (after_three acc b0 b1 b2) (b2 % 64)) h)

text_length-text :
    (t s : String) (i : ℕ) → reads_back t i ≡ true → text_length (t +++ s) ≡ suc (text_length s)
unfolding text_length
text_length-text String.[] s i h = absurd (ground arith)
text_length-text (String.◌∷◌ c String.[]) s i h = rw (cons-append c String.[] s, nil-append s) refl
text_length-text (String.◌∷◌ c (String.◌∷◌ d t)) s i h = absurd (ground arith)

-- The array is as long as the bytes.
text_length-unpadded :
    (bytes : List ℕ) → All IsByte bytes → text_length (unpadded bytes) * 6 / 8 ≡ length bytes
unfolding text_length unpadded
text_length-unpadded [] h = refl
text_length-unpadded (b0 ∷ []) (h0, h) = rw (
  text_length-text _ _ _ (first-reads_back b0 h0),
  text_length-text _ _ _ (second-reads_back b0 0 (omega arith)),
)
text_length-unpadded (b0 ∷ b1 ∷ []) (h0, (h1, h)) = rw (
  text_length-text _ _ _ (first-reads_back b0 h0),
  text_length-text _ _ _ (second-reads_back b0 b1 h1),
  text_length-text _ _ _ (third-reads_back b1 0 (omega arith)),
)
text_length-unpadded (b0 ∷ b1 ∷ b2 ∷ bytes) (h0, (h1, (h2, h))) =
    rw
      (
        text_length-text _ _ _ (first-reads_back b0 h0),
        text_length-text _ _ _ (second-reads_back b0 b1 h1),
        text_length-text _ _ _ (third-reads_back b1 b2 h2),
        text_length-text _ _ _ (fourth-reads_back b2),
      )
      (omega (arith, text_length-unpadded bytes h))

fill-length : (bytes : List ℕ) → fill (length bytes) bytes ≡ bytes
unfolding fill
fill-length [] = refl
fill-length (b ∷ bytes) = ap (λ r. b ∷ r) (fill-length bytes)

-- Bytes come back from their base64 text, however many they are: the accumulator overflows its 32
-- bits, but no digit that is still to be written is lost.
pub base64_to_bytes-bytes_to_base64 :
    (bytes : List ℕ) → All IsByte bytes → base64_to_bytes (bytes_to_base64 bytes) ≡ bytes
unfolding base64_to_bytes
base64_to_bytes-bytes_to_base64 bytes h =
    rw
      (
        strip_padding-bytes_to_base64 bytes h,
        decode_loop-unpadded bytes 0 h,
        text_length-unpadded bytes h,
      )
      (fill-length bytes)
