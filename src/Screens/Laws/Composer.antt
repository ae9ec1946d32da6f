-- ===== src/Screens/Laws/Composer.antt =====
-- What the peers see of our typing.
use hwfa.Common.{
  ◌-◌, ◌<◌, Bool, true, false, ◌&&◌, List, [], ◌∷◌, ◌≡◌, String, ◌==◌, is_some, if◌then◌else◌,
  includes,
}
use hwfa.Screens.Composer.{Signal, Composer}

-- What the last call for a peer says.
abbrev pub seen : String → List Signal → Bool
seen p [] = false
seen p (s ∷ ss) = if s.peer == p then s.typing else seen p ss

-- What a peer was told last.
abbrev pub told : String → List Signal → Bool
told p [] = false
told p (s ∷ ss) = if s.peer == p && s.goes_out then s.typing else told p ss

-- Of two announcements with no signal in between, the later came more than three seconds later.
abbrev pub IsThrottled : List Signal → Type 0
IsThrottled [] = Unit
IsThrottled (s ∷ []) = Unit
IsThrottled (s ∷ t ∷ ss) =
    (s.typing ≡ true → t.typing ≡ true → 3000 < s.at - t.at) × IsThrottled (t ∷ ss)

-- If we are typing, the newest signal said so and the idle timer is set.
abbrev pub IsActive : Composer → List Signal → Type 0
IsActive c [] = c.typing_active ≡ false
IsActive c (s ∷ ss) =
    (s.typing ≡ c.typing_active) × (c.typing_active ≡ true → s.at ≡ c.last_typing_sent)

-- `old` are conversations that had a message before anything was typed in them.
pub record IsHonest (old : List String) (c : Composer) : Type 0 where
  pub view : (p : String) → seen p c.signals ≡ (c.peer_user_id == p && c.typing_active)
  pub armed : c.typing_active ≡ true → is_some c.idle_timer ≡ true
  pub throttled : IsThrottled c.signals
  pub newest : IsActive c c.signals
  pub started : (p : String) → includes p old ≡ true → includes p c.threads ≡ true
  pub heard : (p : String) → includes p old ≡ true → told p c.signals ≡ seen p c.signals
  pub silent : (p : String) → includes p c.threads ≡ false → told p c.signals ≡ false
