-- ===== src/Utf8/Laws.antt =====
-- UTF-8 and back.
mod Tests
use Prim.Native.Nat.{bit_or}
use mathlib.Core.Path.{ap₂}
use hwfa.Common.{
  ℕ, zero, suc, ◌+◌, ◌-◌, ◌*◌, ◌/◌, ◌%◌, ◌≤◌, ◌<◌, ◌≡◌, refl, sym, ap, ◌∙◌, arith, Bool, true,
  false, ◌&&◌, not, none, some, List, [], ◌∷◌, ◌++◌, length, length-append, leb, ltb, Bool-cases,
  inl, inr, if◌then◌else◌,
}
use hwfa.Common.Bits.{bit_or-shift_left, bit_or_six, bit_or_twelve, bit_or_eighteen}
use hwfa.Utf8.{
  is_high, encode_unit, code_point, encode_pair, utf8_from, utf8_encode, decode_one, decode_loop,
  utf8_decode,
}

abbrev pub is_low : ℕ → Bool
is_low c = leb 0xdc00 c && leb c 0xdfff

-- The units are 16 bits wide and each first half of a pair has its second half after it.
unfoldable pub well_formed : List ℕ → Bool
well_formed [] = true
well_formed (c ∷ []) = ltb c 65536 && not (is_high c)
well_formed (c ∷ d ∷ cs) =
    let rest = well_formed (d ∷ cs) in ltb c 65536 && (if is_high c then is_low d && rest else rest)

continuation : (x : ℕ) → bit_or 0x80 (x % 64) ≡ 0x80 + x % 64
continuation x = bit_or_six 2 (x % 64) (omega arith)

lead_two : (c : ℕ) → c < 0x800 → bit_or 0xc0 (c / 64) ≡ 0xc0 + c / 64
lead_two c h = bit_or_six 3 (c / 64) (omega arith)

lead_three : (c : ℕ) → c < 65536 → bit_or 0xe0 (c / 4096) ≡ 0xe0 + c / 4096
lead_three c h = bit_or-shift_left 4 14 (c / 4096) (omega arith)

lead_four : (c : ℕ) → c < 0x200000 → bit_or 0xf0 (c / 262144) ≡ 0xf0 + c / 262144
lead_four c h = bit_or-shift_left 3 30 (c / 262144) (omega arith)

decode_one_ascii : (c : ℕ) (rest : List ℕ) → c < 0x80 → decode_one c rest ≡ (c ∷ [], rest)
unfolding decode_one
decode_one_ascii c rest h = let small : ltb c 0x80 ≡ true = ground arith in rw small refl

decode_one_two :
    (x y : ℕ) (rest : List ℕ)
    → x < 32
    → y < 64
    → decode_one (0xc0 + x) ((0x80 + y) ∷ rest) ≡ ((x * 64 + y) ∷ [], rest)
unfolding decode_one
decode_one_two x y rest h l =
    let large : ltb (0xc0 + x) 0x80 ≡ false = ground arith in
    let two : ltb (0xc0 + x) 0xe0 ≡ true = ground arith in
    let first : (0xc0 + x) % 32 ≡ x = omega arith in
    let second : (0x80 + y) % 64 ≡ y = omega arith in
    rw (large, two, first, second, bit_or_six x y l) refl

decode_one_three :
    (x y z : ℕ) (rest : List ℕ)
    → x < 16
    → y < 64
    → z < 64
    → decode_one (0xe0 + x) ((0x80 + y) ∷ (0x80 + z) ∷ rest) ≡ ((x * 4096 + y * 64 + z) ∷ [], rest)
unfolding decode_one
decode_one_three x y z rest h l m =
    let large : ltb (0xe0 + x) 0x80 ≡ false = ground arith in
    let not_two : ltb (0xe0 + x) 0xe0 ≡ false = ground arith in
    let three : ltb (0xe0 + x) 0xf0 ≡ true = ground arith in
    let first : (0xe0 + x) % 16 ≡ x = omega arith in
    let second : (0x80 + y) % 64 ≡ y = omega arith in
    let third : (0x80 + z) % 64 ≡ z = omega arith in
    rw (large, not_two, three, first, second, third, bit_or_twelve x y z l m) refl

decode_one_four :
    (x y z t : ℕ) (rest : List ℕ)
    → x < 8
    → y < 64
    → z < 64
    → t < 64
    → let cp = x * 262144 + y * 4096 + z * 64 + t in
      decode_one (0xf0 + x) ((0x80 + y) ∷ (0x80 + z) ∷ (0x80 + t) ∷ rest)
      ≡ (((0xd800 + cp / 1024) - 64) ∷ (0xdc00 + cp % 1024) ∷ [], rest)
unfolding decode_one
decode_one_four x y z t rest h l m n =
    let large : ltb (0xf0 + x) 0x80 ≡ false = ground arith in
    let not_two : ltb (0xf0 + x) 0xe0 ≡ false = ground arith in
    let not_three : ltb (0xf0 + x) 0xf0 ≡ false = ground arith in
    let first : (0xf0 + x) % 8 ≡ x = omega arith in
    let second : (0x80 + y) % 64 ≡ y = omega arith in
    let third : (0x80 + z) % 64 ≡ z = omega arith in
    let fourth : (0x80 + t) % 64 ≡ t = omega arith in
    rw (large, not_two, not_three, first, second, third, fourth, bit_or_eighteen x y z t l m n) refl

-- A unit comes back, and its bytes are taken whole.
decode_unit :
    (fuel c : ℕ) (rest : List ℕ)
    → c < 65536
    → decode_loop (suc fuel) (encode_unit c ++ rest) ≡ c ∷ decode_loop fuel rest
unfolding decode_loop encode_unit
decode_unit fuel c rest h = elim (Bool-cases (ltb c 0x80)) [
  | inl e ↦ rw (e, decode_one_ascii c rest (ground arith)) refl
  | inr e ↦ elim (Bool-cases (ltb c 0x800)) [
    | inl f ↦
        rw
          (
            e,
            f,
            lead_two c (ground arith),
            continuation c,
            decode_one_two (c / 64) (c % 64) rest (ground arith) (omega arith),
          )
          (ap (λ x. x ∷ decode_loop fuel rest) (omega arith))
    | inr f ↦
        rw
          (
            e,
            f,
            lead_three c h,
            continuation (c / 64),
            continuation c,
            decode_one_three (c / 4096) ((c / 64) % 64) (c % 64) rest (omega arith) (omega arith)
                (omega arith),
          )
          (ap (λ x. x ∷ decode_loop fuel rest) (omega arith))
  ]
]

reassembled :
    (code : ℕ)
    → code / 262144 * 262144 + (code / 4096) % 64 * 4096 + (code / 64) % 64 * 64 + code % 64 ≡ code
reassembled code = omega arith

decode_pair :
    (fuel hi lo : ℕ) (rest : List ℕ)
    → is_high hi ≡ true
    → is_low lo ≡ true
    → decode_loop (suc fuel) (encode_pair hi lo ++ rest) ≡ hi ∷ lo ∷ decode_loop fuel rest
unfolding decode_loop encode_pair
decode_pair fuel hi lo rest h l =
    let code = code_point hi lo in
    let bounds : (0xd800 ≤ hi) × (hi ≤ 0xdbff) × (0xdc00 ≤ lo) × (lo ≤ 0xdfff) = ground arith in
    rw
      (
        lead_four code (omega arith),
        continuation (code / 4096),
        continuation (code / 64),
        continuation code,
        decode_one_four (code / 262144) ((code / 4096) % 64) ((code / 64) % 64) (code % 64) rest
            (omega arith) (omega arith) (omega arith) (omega arith),
      )
      (ap₂ (λ x y. x ∷ y ∷ decode_loop fuel rest)
        (ap (λ n. (0xd800 + n / 1024) - 64) (reassembled code) ∙ omega arith)
        (ap (λ n. 0xdc00 + n % 1024) (reassembled code) ∙ omega arith))

well_formed_tail :
    (d : ℕ) (cs : List ℕ) → is_high d ≡ false → well_formed (d ∷ cs) ≡ true → well_formed cs ≡ true
unfolding well_formed
well_formed_tail d [] e h = refl
well_formed_tail d (c ∷ cs) e h = ground arith

low_not_high : (d : ℕ) → is_low d ≡ true → is_high d ≡ false
low_not_high d h = ground arith

decode_loop-nil : (fuel : ℕ) → decode_loop fuel [] ≡ []
unfolding decode_loop
decode_loop-nil zero = refl
decode_loop-nil (suc fuel) = refl

length-encode_unit : (c : ℕ) → 1 ≤ length (encode_unit c)
unfolding encode_unit
length-encode_unit c = ground arith

length-utf8_from :
    (c : ℕ) (cs : List ℕ)
    → (length cs ≤ length (utf8_from none cs)) × (length cs < length (utf8_from (some c) cs))
unfolding utf8_from encode_pair
length-utf8_from c [] = (omega arith, omega arith)
length-utf8_from c (d ∷ cs) = elim (Bool-cases (is_high d)) [
  | inl e ↦ rw e (omega (arith, length-utf8_from d cs), omega (arith, length-utf8_from d cs))
  | inr e ↦ rw e (
    omega (
      arith,
      length-utf8_from d cs,
      length-append (encode_unit d) (utf8_from none cs),
      length-encode_unit d,
    ),
    omega (arith, length-utf8_from d cs),
  )
]

decode_loop-utf8_from :
    (fuel : ℕ) (cs : List ℕ)
    → length cs ≤ fuel
    → well_formed cs ≡ true
    → decode_loop fuel (utf8_from none cs) ≡ cs
unfolding utf8_from well_formed
decode_loop-utf8_from fuel [] l h = decode_loop-nil fuel
decode_loop-utf8_from zero (c ∷ cs) l h = absurd (omega arith)
decode_loop-utf8_from (suc fuel) (c ∷ []) l h =
    let single : is_high c ≡ false = ground arith in
    rw (single, decode_unit fuel c [] (ground arith), decode_loop-nil fuel) refl
decode_loop-utf8_from (suc fuel) (c ∷ d ∷ cs) l h = elim (Bool-cases (is_high c)) [
  | inl e ↦
      let low : is_low d ≡ true = ground arith in
      let rest : well_formed cs ≡ true =
        well_formed_tail d cs (low_not_high d low) (ground arith) in
      rw
        (
          e,
          decode_pair fuel c d (utf8_from none cs) e low,
          decode_loop-utf8_from fuel cs (omega arith) rest,
        )
        refl
  | inr e ↦
      rw
        (
          e,
          decode_unit fuel c (utf8_from none (d ∷ cs)) (ground arith),
          decode_loop-utf8_from fuel (d ∷ cs) (omega arith) (ground arith),
        )
        refl
]

-- A string comes back from its UTF-8 bytes if each first half of a surrogate pair has its second half
-- after it; and as many passes as there are bytes are enough for the loop.
pub utf8_decode-utf8_encode :
    (str : List ℕ) → well_formed str ≡ true → utf8_decode (utf8_encode str) ≡ str
unfolding utf8_decode utf8_encode
utf8_decode-utf8_encode str h =
    decode_loop-utf8_from (length (utf8_from none str)) str (length-utf8_from 0 str).0 h
