-- ===== src/SafetyNumber/Laws.antt =====
-- Safety numbers are the same on both sides and have twelve groups of five digits.
mod Tests
use hwfa.Common.{
  ℕ, zero, suc, ◌+◌, ◌-◌, ◌*◌, ◌%◌, ◌≤◌, ◌<◌, ◌≡◌, refl, sym, ap, ◌∙◌, arith, List, [], ◌∷◌, ◌++◌,
  String, length, ltb, nat_eq, Bool, true, false, Bool-cases, inl, inr, All, if◌then◌else◌,
}
use hwfa.Common.Text.{add_zeros, length-add_zeros, ◌+++◌, text_length, text_length-append}
use hwfa.Common.Digits.{to_text, length-to_text}
use hwfa.Sha256.{sha256}
use hwfa.SafetyNumber.{
  Sign, negative, null, positive, compare_bytes, is_not_after, sorted_pair, group_value, pad_start,
  group, groups, join, safety_groups, safety_number,
}

abbrev flip : Sign → Sign
flip negative = positive
flip null = null
flip positive = negative

compare_bytes-flip : (a b : List ℕ) → compare_bytes b a ≡ flip (compare_bytes a b)
unfolding compare_bytes
compare_bytes-flip [] [] = refl
compare_bytes-flip [] (y ∷ ys) = refl
compare_bytes-flip (x ∷ xs) [] = refl
compare_bytes-flip (x ∷ xs) (y ∷ ys) = ground (arith, compare_bytes-flip xs ys)

compare_bytes_null : (a b : List ℕ) → compare_bytes a b ≡ null → a ≡ b
unfolding compare_bytes
compare_bytes_null [] [] h = refl
compare_bytes_null [] (y ∷ ys) h = cc
compare_bytes_null (x ∷ xs) [] h = cc
compare_bytes_null (x ∷ xs) (y ∷ ys) h = ground (arith, compare_bytes_null xs ys)

sorted_pair_comm : (a b : List ℕ) → sorted_pair a b ≡ sorted_pair b a
unfolding sorted_pair
sorted_pair_comm a b = ground (arith, compare_bytes-flip a b, compare_bytes_null a b)

-- Both sides compute the same number, whichever key is whose.
pub safety_number_comm :
    (decode : String → List ℕ) (a b : String) → safety_number decode a b ≡ safety_number decode b a
unfolding safety_number safety_groups
safety_number_comm decode a b = rw (sorted_pair_comm (decode a) (decode b)) refl

group_value_lt : (count n : ℕ) (block : List ℕ) → n < 100000 → group_value count n block < 100000
unfolding group_value
group_value_lt zero n block h = h
group_value_lt (suc count) n [] h = h
group_value_lt (suc count) n (x ∷ block) h = group_value_lt count _ block (omega arith)

length-pad_start : (s : String) → text_length s ≤ 5 → text_length (pad_start s) ≡ 5
unfolding pad_start
length-pad_start s h = omega (arith, length-add_zeros (5 - text_length s) s)

length-group : (h : List ℕ) (k : ℕ) → text_length (group h k) ≡ 5
unfolding group
length-group h k =
    let n = group_value 5 0 (sha256 (h ++ (k ∷ []))) in
    length-pad_start (to_text 10 n)
      (length-to_text 4 n (group_value_lt 5 0 (sha256 (h ++ (k ∷ []))) (omega arith)))

abbrev pub IsGroup : String → Type 0
IsGroup s = text_length s ≡ 5

groups-IsGroup : (h : List ℕ) (k n : ℕ) → (length (groups h k n) ≡ n) × All IsGroup (groups h k n)
unfolding groups
groups-IsGroup h k zero = (refl, tt)
groups-IsGroup h k (suc n) =
    let (l, g) = groups-IsGroup h (k + 1) n in (ap suc l, (length-group h k, g))

text_length_space : text_length " " ≡ 1
unfolding text_length
text_length_space = refl

length-join :
    (n : ℕ) (ts : List String)
    → length ts ≡ suc n
    → All IsGroup ts
    → text_length (join ts) ≡ 5 + n * 6
unfolding join
length-join n [] e h = cc
length-join n (t ∷ []) e (h, _) = omega (arith, h)
length-join zero (t ∷ t' ∷ ts) e (h, g) = absurd (omega (arith, e))
length-join (suc n) (t ∷ t' ∷ ts) e (h, g) = omega (
  arith,
  h,
  length-join n (t' ∷ ts) (omega (arith, e)) g,
  text_length-append t (" " +++ join (t' ∷ ts)),
  text_length-append " " (join (t' ∷ ts)),
  text_length_space,
)

-- The number is twelve groups of five characters, apart by one space each: 71 characters.
pub length-safety_number :
    (decode : String → List ℕ) (a b : String) → text_length (safety_number decode a b) ≡ 71
unfolding safety_number safety_groups
length-safety_number decode a b = let (l, g) = groups-IsGroup _ 0 12 in length-join 11 _ l g
