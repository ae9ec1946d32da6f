-- ===== src/Sha256/Laws/Padding.antt =====
-- The padding of SHA-256.
use native.Mathlib.Decide.{dec_lt}
use mathlib.Core.List.{append_assoc, append-nil}
use hwfa.Common.{
  ℕ, zero, suc, ◌+◌, ◌-◌, ◌*◌, ◌/◌, ◌%◌, ◌^◌, ◌<◌, ◌≡◌, refl, sym, ap, ◌∙◌, arith, List, [], ◌∷◌,
  ◌++◌, length, length-append, none, some, true, false, ltb, leb, ◌&&◌, if◌then◌else◌,
}
use hwfa.Sha256.{word_mod, to_word, word_bytes, zeros, write, padded_length, padded_buffer, pad}

length-zeros : (n : ℕ) → length (zeros n) ≡ n
unfolding zeros
length-zeros zero = refl
length-zeros (suc n) = ap suc (length-zeros n)

zero_plus : (n : ℕ) → 0 + n ≡ n
zero_plus n = omega arith

suc_plus : (n m : ℕ) → suc n + m ≡ suc (n + m)
suc_plus n m = omega arith

length-zeros_plus : (k : ℕ) → k ≡ length (zeros k) + 0
length-zeros_plus k = omega (arith, length-zeros k)

zeros_add : (n m : ℕ) → zeros (n + m) ≡ zeros n ++ zeros m
unfolding zeros
zeros_add zero m = ap zeros (zero_plus m)
zeros_add (suc n) m = rw suc_plus (ap (λ t. 0 ∷ t) (zeros_add n m))

-- Writing past a prefix leaves it.
write_skip :
    (pre : List ℕ) (n : ℕ) (xs rest : List ℕ)
    → write (length pre + n) xs (pre ++ rest) ≡ pre ++ write n xs rest
unfolding write
write_skip [] n xs rest = rw zero_plus refl
write_skip (p ∷ pre) n xs rest = rw suc_plus (ap (λ t. p ∷ t) (write_skip pre n xs rest))

write_over : (xs : List ℕ) (n : ℕ) → write 0 xs (zeros (length xs + n)) ≡ xs ++ zeros n
unfolding write zeros
write_over [] n = rw zero_plus refl
write_over (x ∷ xs) n = rw suc_plus (ap (λ t. x ∷ t) (write_over xs n))

-- Past the zeros before it, and over as many as it has bytes.
write-zeros :
    (k n : ℕ) (xs : List ℕ) → write k xs (zeros (k + (length xs + n))) ≡ zeros k ++ (xs ++ zeros n)
write-zeros k n xs = rw (zeros_add k (length xs + n)) (
    ap (λ j. write j xs (zeros k ++ zeros (length xs + n))) (length-zeros_plus k)
    ∙ write_skip (zeros k) 0 xs (zeros (length xs + n))
    ∙ ap (λ t. zeros k ++ t) (write_over xs n))

-- Writing after `pre` and `k` of the zeros that follow it.
write_at :
    {off m : ℕ} (pre xs : List ℕ) (k n : ℕ)
    → off ≡ length pre + k
    → m ≡ k + (length xs + n)
    → write off xs (pre ++ zeros m) ≡ pre ++ (zeros k ++ (xs ++ zeros n))
write_at pre xs k n e f =
    rw (e, f, write_skip pre k xs (zeros (k + (length xs + n))))
      (ap (λ t. pre ++ t) (write-zeros k n xs))

-- The four writes on a buffer of the right size.
writes_lem :
    (xs hi lo : List ℕ) (k padded : ℕ)
    → length hi ≡ 4
    → length lo ≡ 4
    → padded ≡ length xs + 9 + k
    → write
        (padded - 4)
        lo
        (write (padded - 8) hi (write (length xs) (0x80 ∷ []) (write 0 xs (zeros padded))))
      ≡ xs ++ (0x80 ∷ (zeros k ++ (hi ++ lo)))
unfolding zeros
writes_lem xs hi lo k padded h l e =
    let marked = xs ++ (0x80 ∷ []) in
    let sized : length marked ≡ length xs + 1 = length-append xs (0x80 ∷ []) in
    let step1 : write 0 xs (zeros padded) ≡ xs ++ zeros (9 + k) =
      write_at [] xs 0 (9 + k) refl (omega (arith, e)) in
    let step2 : write (length xs) (0x80 ∷ []) (xs ++ zeros (9 + k)) ≡ marked ++ zeros (8 + k) =
      write_at xs (0x80 ∷ []) 0 (8 + k) (omega arith) (omega arith)
      ∙ sym (append_assoc xs (0x80 ∷ []) (zeros (8 + k))) in
    let gap = marked ++ (zeros k ++ hi) in
    let gap_sized : length gap ≡ length xs + 5 + k = omega (
      arith,
      sized,
      h,
      length-append marked (zeros k ++ hi),
      length-append (zeros k) hi,
      length-zeros k,
    ) in
    let step3 : write (padded - 8) hi (marked ++ zeros (8 + k)) ≡ gap ++ zeros 4 =
      write_at marked hi k 4 (omega (arith, e, sized)) (omega (arith, h))
      ∙ ap (λ t. marked ++ t) (sym (append_assoc (zeros k) hi (zeros 4)))
      ∙ sym (append_assoc marked (zeros k ++ hi) (zeros 4)) in
    let step4 : write (padded - 4) lo (gap ++ zeros 4) ≡ gap ++ (lo ++ []) =
      write_at {m = 4} gap lo 0 0 (omega (arith, e, gap_sized)) (omega (arith, l)) in
    rw (step1, step2, step3, step4) (simp (append_assoc, append-nil) refl)

-- The 64-bit number, its highest byte first.
abbrev pub big_endian : ℕ → List ℕ
big_endian n =
    (n / 2 ^ 56) % 256
    ∷ (n / 2 ^ 48) % 256
    ∷ (n / 2 ^ 40) % 256
    ∷ (n / 2 ^ 32) % 256
    ∷ (n / 2 ^ 24) % 256
    ∷ (n / 2 ^ 16) % 256
    ∷ (n / 2 ^ 8) % 256
    ∷ n % 256
    ∷ []

cons_path : {x y : ℕ} {xs ys : List ℕ} → x ≡ y → xs ≡ ys → x ∷ xs ≡ y ∷ ys
cons_path e f = rw (e, f) refl

word_bytes-pair : (n : ℕ) → word_bytes (n / word_mod) ++ word_bytes (to_word n) ≡ big_endian n
unfolding word_bytes
word_bytes-pair n = cons_path (omega arith) (
    cons_path (omega arith) (
      cons_path (omega arith) (
        cons_path (omega arith) (
          cons_path (omega arith)
            (cons_path (omega arith) (cons_path (omega arith) (cons_path (omega arith) refl)))))))

length-word_bytes : (x : ℕ) → length (word_bytes x) ≡ 4
unfolding word_bytes
length-word_bytes x = refl

padded_buffer_lem :
    (xs : List ℕ) (k padded : ℕ)
    → padded ≡ length xs + 9 + k
    → padded_buffer xs padded ≡ xs ++ (0x80 ∷ (zeros k ++ big_endian (length xs * 8)))
unfolding padded_buffer
padded_buffer_lem xs k padded e =
    writes_lem xs (word_bytes (length xs * 8 / word_mod)) (word_bytes (to_word (length xs * 8))) k
      padded (length-word_bytes (length xs * 8 / word_mod))
      (length-word_bytes (to_word (length xs * 8))) e
    ∙ ap (λ t. xs ++ (0x80 ∷ (zeros k ++ t))) (word_bytes-pair (length xs * 8))

-- Below 2 ^ 31 - 72 bytes the padding is that of the standard: no byte of the data is written over,
-- then come 0x80, the fewest zeros that end a block with eight more bytes, and there the length in
-- bits. From there on the padded length does not fit its 32 bits, and padding throws.
pub pad_lem :
    (xs : List ℕ) (k : ℕ)
    → k < 64
    → (length xs + 9 + k) % 64 ≡ 0
    → pad xs ≡ (
        if ltb (length xs) (2 ^ 31 - 72)
        then some (xs ++ (0x80 ∷ (zeros k ++ big_endian (length xs * 8))))
        else none)
unfolding pad
pad_lem xs k h e = elim (dec_lt (length xs) (2 ^ 31 - 72)) [
  | yes l ↦
      let padded = padded_length (length xs) in
      let sized : padded ≡ length xs + 9 + k = omega (arith, l) in
      let fits : ltb padded (2 ^ 31) && leb (length xs) padded ≡ true = ground (arith, l, sized) in
      let small : ltb (length xs) (2 ^ 31 - 72) ≡ true = ground (arith, l) in
      rw (small, pad, fits) (ap some (padded_buffer_lem xs k padded sized))
  | no l ↦
      let large : ltb (length xs) (2 ^ 31 - 72) ≡ false = ground (arith, l) in
      let negative : ltb (padded_length (length xs)) (2 ^ 31)
            && leb (length xs) (padded_length (length xs))
          ≡ false =
        ground (arith, l) in
      rw (large, pad, negative) refl
]
