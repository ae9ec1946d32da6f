-- ===== src/KeyPool/Laws/Tests.antt =====
-- A device with two keys, of which one is used up.
use hwfa.Common.{ℕ, ◌+◌, none, List, [], ◌∷◌, ◌≡◌, refl, String}
use hwfa.Common.Dict.{get, set, delete}
use hwfa.Common.Digits.{to_text}
use hwfa.SignalStores.{save_pre_key, get_pre_key, remove_pre_key}
use hwfa.KeyPool.{
  no_keys, mint_from, highest, generate_registration, use_pre_key, Event, registered, used, step,
  run, key_at,
}

abbrev drawn : ℕ → ℕ × String
drawn i = (100 + i, "pub")

abbrev life : List (Event ℕ)
life = registered drawn 2 ∷ used 1 ∷ []

life_test : key_at (run no_keys life) 1 ≡ none
unfolding run step generate_registration use_pre_key key_at mint_from highest save_pre_key
    get_pre_key remove_pre_key get set delete to_text
life_test = refl
