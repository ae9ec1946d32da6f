-- ===== src/Media/Base64/Letters.antt =====
-- The loop of base64ToBytes, one letter at a time.
use Prim.Native.Char.{code}
use Prim.Native.Nat.{bit_or}
use text.Mathlib.TextLemmas.{nil-append, cons-append}
use hwfa.Common.{
  ℕ, zero, suc, ◌+◌, ◌-◌, ◌*◌, ◌/◌, ◌%◌, ◌<◌, Bool, true, false, not, ◌&&◌, ◌≡◌, refl, ap, ◌∙◌, ◌⊎◌,
  arith, List, ◌∷◌, String, nat_eq, leb, if◌then◌else◌, inl, inr,
}
use hwfa.Common.Bits.{shift_left, bit_or-shift_left, bit_or_six}
use hwfa.Common.Text.{◌+++◌}
use hwfa.Base64Url.{strip_padding}
use hwfa.Base64Url.Laws.{strip_before_lem}
use hwfa.Media.Base64.{
  letter_at, letter, lookup_from, lookup, push_six, shift_right, kept_bits, decode_loop,
}

-- The text is one character, no `=`, and stands for `i`.
abbrev pub reads_back : String → ℕ → Bool
reads_back (String.◌∷◌ c String.[]) i = nat_eq (lookup c) i && not (nat_eq (code c) b'=')
reads_back _ i = false

-- The test holds of all numbers below `n`.
all_below : ℕ → (ℕ → Bool) → Bool
all_below zero test = true
all_below (suc n) test = test n && all_below n test

below_or_last : (n i : ℕ) → i < suc n → (i ≡ n) ⊎ (i < n)
below_or_last n i l = omega arith

all_below_lem : (n i : ℕ) (test : ℕ → Bool) → all_below n test ≡ true → i < n → test i ≡ true
unfolding all_below
all_below_lem zero i test h l = absurd (omega arith)
all_below_lem (suc n) i test h l = elim (below_or_last n i l) [
  | inl e ↦ ap test e ∙ ground arith
  | inr l' ↦ all_below_lem n i test (ground arith) l'
]

pub letter-reads_back : (i : ℕ) → i < 64 → reads_back (letter i) i ≡ true
unfolding all_below letter_at lookup_from
letter-reads_back i l = all_below_lem 64 i (λ i. reads_back (letter i) i) refl l

pub bit_or_four : (a y : ℕ) → y < 16 → bit_or (a * 16) y ≡ a * 16 + y
bit_or_four a y h =
    let four : a * 16 ≡ shift_left 4 a = omega arith in
    ap (λ x. bit_or x y) four ∙ bit_or-shift_left 4 a y (omega arith) ∙ omega arith

pub bit_or_two : (a y : ℕ) → y < 4 → bit_or (a * 4) y ≡ a * 4 + y
bit_or_two a y h =
    let two : a * 4 ≡ shift_left 2 a = omega arith in
    ap (λ x. bit_or x y) two ∙ bit_or-shift_left 2 a y (omega arith) ∙ omega arith

-- The accumulator may overflow: its last twelve digits are those of the last two letters.
pub push_six_lem : (acc v : ℕ) → v < 64 → push_six acc v % 4096 ≡ acc % 64 * 64 + v
push_six_lem acc v h =
    let low : acc * 64 % 4294967296 ≡ acc % 67108864 * 64 = omega arith in
    ap (λ x. bit_or x v % 4096) low
    ∙ ap (λ x. x % 4096) (bit_or_six (acc % 67108864) v h)
    ∙ omega arith

-- The sign that `>>` keeps does not reach the last byte.
shift_right_none : (acc : ℕ) → shift_right acc 0 % 256 ≡ acc % 4096 % 256
shift_right_none acc = ground arith

shift_right_two : (acc : ℕ) → shift_right acc 2 % 256 ≡ acc % 4096 / 4 % 256
shift_right_two acc = ground arith

shift_right_four : (acc : ℕ) → shift_right acc 4 % 256 ≡ acc % 4096 / 16 % 256
shift_right_four acc = ground arith

abbrev emit : ℕ → ℕ → List ℕ → List ℕ
emit acc bits rest = if leb 8 bits then shift_right acc (bits - 8) % 256 ∷ rest else rest

-- One letter of the loop.
decode_loop-text :
    (t s : String) (i acc bits : ℕ)
    → reads_back t i ≡ true
    → decode_loop (t +++ s) acc bits
      ≡ emit (push_six acc i) (bits + 6) (decode_loop s (push_six acc i) (kept_bits (bits + 6)))
unfolding decode_loop
decode_loop-text String.[] s i acc bits h = absurd (ground arith)
decode_loop-text (String.◌∷◌ c String.[]) s i acc bits h =
    let value : lookup c ≡ i = ground arith in
    rw (cons-append c String.[] s, nil-append s, value) refl
decode_loop-text (String.◌∷◌ c (String.◌∷◌ d t)) s i acc bits h = absurd (ground arith)

pub strip_padding-text :
    (t s : String) (i : ℕ) → reads_back t i ≡ true → strip_padding (t +++ s) ≡ t +++ strip_padding s
unfolding strip_padding
strip_padding-text String.[] s i h = absurd (ground arith)
strip_padding-text (String.◌∷◌ c String.[]) s i h =
    let no_padding : nat_eq (code c) b'=' ≡ false = ground arith in
    rw
      (
        cons-append c String.[] s,
        nil-append s,
        cons-append c String.[] (strip_padding s),
        nil-append (strip_padding s),
      )
      (strip_before_lem c (strip_padding s) no_padding)
strip_padding-text (String.◌∷◌ c (String.◌∷◌ d t)) s i h = absurd (ground arith)

-- Two letters on end a byte, a third ends one, and so does a fourth, with no bits left over.
pub first_letters :
    (t t' s : String) (i j acc : ℕ)
    → reads_back t i ≡ true
    → reads_back t' j ≡ true
    → i < 64
    → j < 64
    → decode_loop (t +++ t' +++ s) acc 0
      ≡ (i * 4 + j / 16) ∷ decode_loop s (push_six (push_six acc i) j) 4
first_letters t t' s i j acc h h' l l' =
    let acc' = push_six (push_six acc i) j in
    let byte : shift_right acc' 4 % 256 ≡ i * 4 + j / 16 =
      shift_right_four acc'
      ∙ omega (arith, push_six_lem acc i l, push_six_lem (push_six acc i) j l') in
    decode_loop-text t (t' +++ s) i acc 0 h
    ∙ decode_loop-text t' s j (push_six acc i) 6 h'
    ∙ ap (λ b. b ∷ decode_loop s acc' 4) byte

pub third_letter :
    (t s : String) (i acc : ℕ)
    → reads_back t i ≡ true
    → i < 64
    → decode_loop (t +++ s) acc 4 ≡ (acc % 16 * 16 + i / 4) ∷ decode_loop s (push_six acc i) 2
third_letter t s i acc h l =
    let byte : shift_right (push_six acc i) 2 % 256 ≡ acc % 16 * 16 + i / 4 =
      shift_right_two (push_six acc i) ∙ omega (arith, push_six_lem acc i l) in
    decode_loop-text t s i acc 4 h ∙ ap (λ b. b ∷ decode_loop s (push_six acc i) 2) byte

pub fourth_letter :
    (t s : String) (i acc : ℕ)
    → reads_back t i ≡ true
    → i < 64
    → decode_loop (t +++ s) acc 2 ≡ (acc % 4 * 64 + i) ∷ decode_loop s (push_six acc i) 0
fourth_letter t s i acc h l =
    let byte : shift_right (push_six acc i) 0 % 256 ≡ acc % 4 * 64 + i =
      shift_right_none (push_six acc i) ∙ omega (arith, push_six_lem acc i l) in
    decode_loop-text t s i acc 2 h ∙ ap (λ b. b ∷ decode_loop s (push_six acc i) 0) byte
