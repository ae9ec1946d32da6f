-- ===== src/SafetyNumber/Laws/Tests.antt =====
-- Two small keys.
use hwfa.Common.{ℕ, List, [], ◌∷◌, ◌≡◌, refl, String, ◌==◌, if◌then◌else◌}
use hwfa.Common.Text.{text_length}
use hwfa.SafetyNumber.{safety_number, sorted_pair, compare_bytes, group}
use hwfa.Common.Text.{add_zeros}
use hwfa.Common.Digits.{to_text}
use hwfa.Sha256.{sha256}
use hwfa.SafetyNumber.Laws.{safety_number_comm}

abbrev decode : String → List ℕ
decode s = if s == "BQEC" then 5 ∷ 1 ∷ 2 ∷ [] else 5 ∷ 1 ∷ []

sorted_pair_test : sorted_pair (decode "BQEC") (decode "BQE=") ≡ 5 ∷ 1 ∷ 5 ∷ 1 ∷ 2 ∷ []
unfolding sorted_pair compare_bytes
sorted_pair_test = refl

group_test : group (7 ∷ []) 0 ≡ "20328"
unfolding group sha256 add_zeros text_length to_text
group_test = refl

safety_number_comm_example : safety_number decode "BQEC" "BQE=" ≡ safety_number decode "BQE=" "BQEC"
safety_number_comm_example = safety_number_comm decode "BQEC" "BQE="
