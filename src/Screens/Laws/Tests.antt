-- ===== src/Screens/Laws/Tests.antt =====
-- Concrete screens, on which the laws are used.
use hwfa.Common.{ℕ, List, true, false, none, some, [], ◌∷◌, ◌≡◌, refl}
use hwfa.Common.Text.{trim}
use hwfa.Common.Digits.{to_text}
use hwfa.Screens.Composer.{Composer, Event, typed, peer_set, sent, step, run, announce}
use hwfa.Screens.Format.{LocalDate, format_relative, format_size}

abbrev empty : Composer
empty = record {
  peer_user_id = "bob";
  draft = "";
  last_typing_sent = 0;
  typing_active = false;
  idle_timer = none;
  signals = [];
  threads = "bob" ∷ [];
}

-- Two key strokes within a second announce once, and sending takes it back.
composer_test :
    (run empty ((5000, typed "h") ∷ (5900, typed "hi") ∷ (6000, sent) ∷ [])).signals
    ≡ record { at = 6000; peer = "bob"; typing = false; goes_out = true }
      ∷ record { at = 5000; peer = "bob"; typing = true; goes_out = true }
      ∷ []
unfolding run step announce trim
composer_test = refl

abbrev evening : List (ℕ × Event)
evening = (5000, typed "h") ∷ (5100, peer_set "eve") ∷ (5200, typed "x") ∷ (9200, typed "xy") ∷ []

noon : ℕ → LocalDate
noon ts = record { hours = 12; minutes = 5; date = 31; month = 11 }

format_test : format_relative noon 1000000 700000000 ≡ "12/31"
unfolding format_relative to_text noon
format_test = refl

size_test : format_size (some 2516582) ≡ "2.4 MB"
unfolding format_size to_text
size_test = refl

-- Rounding may reach the next unit's first value.
size_edge_test : format_size (some 1048575) ≡ "1024 KB"
unfolding format_size to_text
size_edge_test = refl
