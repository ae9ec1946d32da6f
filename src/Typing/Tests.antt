-- ===== src/Typing/Tests.antt =====
-- A concrete typing store, on which the law is used.
use hwfa.Common.{true, false, ◌∷◌, [], ◌≡◌, includes}
use hwfa.Common.Dict.{get}
use hwfa.Typing.{TypingStore, receive_typing, get_typing}
use hwfa.Typing.Snapshots.{receive_typing_lem}

-- Bob types in the thread "g".
abbrev bob_types : TypingStore
bob_types = record {
  by_conv = ("g", ("bob", 7000) ∷ []) ∷ [];
  snapshots = ("g", "bob" ∷ []) ∷ [];
  sweep_timer = true;
}

receive_typing_lem_example :
    includes "bob" (get_typing (receive_typing bob_types 2000 "g" "bob" false) 2000 "g").0 ≡ false
unfolding get
receive_typing_lem_example = receive_typing_lem bob_types 2000 "g" "bob" false (λ e. cc)
