-- ===== src/SafetyNumber.antt =====
-- Safety numbers (packages/client/src/safety-number.ts). A key is a list of bytes; `decode` is the
-- base64 decoding of `base64ToBytes`. Of the number that `compareBytes` returns its sign is kept.
pub mod Laws
use Prim.Native.String
use hwfa.Common.{
  ℕ, zero, suc, ◌+◌, ◌-◌, ◌*◌, ◌%◌, List, [], ◌∷◌, ◌++◌, String, length, ltb, nat_eq, if◌then◌else◌,
  Bool, true, false, map,
}
use hwfa.Common.Text.{◌+++◌, text_length, add_zeros}
use hwfa.Common.Digits.{to_text}
use hwfa.Sha256.{sha256}

pub data Sign : Type 0 where
  negative null positive : Sign

abbrev pub sign_of : ℕ → ℕ → Sign
sign_of n m = if ltb n m then negative else if nat_eq n m then null else positive

-- Bytes first, then lengths.
unfoldable pub compare_bytes : List ℕ → List ℕ → Sign
compare_bytes [] [] = null
compare_bytes [] (y ∷ ys) = negative
compare_bytes (x ∷ xs) [] = positive
compare_bytes (x ∷ xs) (y ∷ ys) =
    let rest = compare_bytes xs ys in
    if nat_eq x y then rest else if ltb x y then negative else positive

-- `compareBytes(a, b) <= 0`.
abbrev pub is_not_after : Sign → Bool
is_not_after positive = false
is_not_after _ = true

-- The two keys in order, one after the other: `concat(lo, hi)`.
unfoldable pub sorted_pair : List ℕ → List ℕ → List ℕ
sorted_pair a b = if is_not_after (compare_bytes a b) then a ++ b else b ++ a

-- The hash after `n` more passes of the loop.
unfoldable pub iterate : ℕ → List ℕ → List ℕ → List ℕ
iterate zero pair h = h
iterate (suc n) pair h = iterate n pair (sha256 (h ++ pair))

abbrev pub iterations : ℕ
iterations = 5200

-- `n = (n * 256 + block[j]) % GROUP_MOD` for the first `count` bytes.
unfoldable pub group_value : ℕ → ℕ → List ℕ → ℕ
group_value zero n block = n
group_value (suc count) n [] = n
group_value (suc count) n (x ∷ block) = group_value count ((n * 256 + x) % 100000) block

-- `padStart(5, "0")`.
unfoldable pub pad_start : String → String
pad_start s = add_zeros (5 - text_length s) s

-- The `k`th group of digits.
unfoldable pub group : List ℕ → ℕ → String
unfolding group_value pad_start
group h k = pad_start (to_text 10 (group_value 5 0 (sha256 (h ++ (k ∷ [])))))

-- The groups from the `k`th on.
unfoldable pub groups : List ℕ → ℕ → ℕ → List String
groups h k zero = []
groups h k (suc n) = group h k ∷ groups h (k + 1) n

-- `join(" ")`.
unfoldable pub join : List String → String
join [] = ""
join (s ∷ []) = s
join (s ∷ t ∷ ts) = s +++ " " +++ join (t ∷ ts)

unfoldable pub safety_groups : List ℕ → List ℕ → List String
safety_groups a b =
    let pair = sorted_pair a b in groups (iterate iterations pair (sha256 pair)) 0 12

unfoldable pub safety_number : (String → List ℕ) → String → String → String
safety_number decode identity_key_a_b64 identity_key_b_b64 =
    join (safety_groups (decode identity_key_a_b64) (decode identity_key_b_b64))
