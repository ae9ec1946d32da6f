-- ===== src/SignalStores/Tests.antt =====
-- Concrete stores, on which the laws are used.
use hwfa.Common.{Bool, ◌∷◌, [], ◌≡◌, String, ◌==◌, if◌then◌else◌}
use hwfa.Common.Dict.{Dict}
use hwfa.SignalStores.{new_or_unchanged, replaced_existing, save_identity, is_trusted_identity}
use hwfa.SignalStores.Laws.{is_trusted_identity-save_identity}

abbrev same : String → String → Bool
same a b = a == b

abbrev known : Dict String
known = ("bob.1", "old") ∷ []

abbrev keys : Dict String
keys = ("1", "k1") ∷ ("2", "k2") ∷ []

is_trusted_identity-save_identity_example :
    let (change, known') = save_identity same known "bob" 1 "new" in
    (change ≡ (
      if is_trusted_identity same known "bob" 1 "new" then new_or_unchanged else replaced_existing))
    × (is_trusted_identity same known' "bob" 1 "old" ≡ same "new" "old")
is_trusted_identity-save_identity_example =
    is_trusted_identity-save_identity same known "bob" 1 "new" "old"
