-- ===== src/App/Laws/Navigation.antt =====
-- The user that the screens have.
use hwfa.Common.{
  ℕ, suc, Bool, true, false, not, ◌||◌, none, some, List, [], ◌∷◌, ◌≡◌, arith, String, is_some, All,
}
use hwfa.App.{
  App, Screen, Event, splash, welcome, onboarding, home, back, found, signed_out, step, run,
}

-- The screens after the onboarding.
abbrev pub needs_user : Screen → Bool
needs_user splash = false
needs_user welcome = false
needs_user onboarding = false
needs_user _ = true

abbrev pub IsSignedIn : App → Type 0
IsSignedIn a = (not (needs_user a.screen) || is_some a.user_id) ≡ true

-- A look-up of a contact is answered while there is a user.
abbrev pub IsTimely : App → Event → Type 0
IsTimely a (found r) = is_some a.user_id ≡ true
IsTimely a _ = Unit

abbrev pub AreTimely : App → List Event → Type 0
AreTimely a [] = Unit
AreTimely a (e ∷ es) = IsTimely a e × AreTimely (step a e) es

step-IsSignedIn : (a : App) (e : Event) → IsTimely a e → IsSignedIn a → IsSignedIn (step a e)
unfolding step
step-IsSignedIn a e t h = ground arith

-- From the launch on, every screen after the onboarding has a signed-in user, whatever is pressed and in whatever
-- order the launch and the screens' own calls are answered, unless a look-up of a contact is answered
-- after signing out.
pub run-IsSignedIn :
    (a : App) (es : List Event) → AreTimely a es → IsSignedIn a → IsSignedIn (run a es)
unfolding run
run-IsSignedIn a [] t h = h
run-IsSignedIn a (e ∷ es) (t, ts) h = run-IsSignedIn (step a e) es ts (step-IsSignedIn a e t h)

-- Nobody's contacts are found, and nobody is signed out.
abbrev pub is_answer : Event → Bool
is_answer (found r) = true
is_answer (signed_out done) = true
is_answer _ = false

abbrev IsBlank : App → Type 0
IsBlank a = (a.screen ≡ home) × (a.user_id ≡ none) × (a.launched ≡ true)

step-IsBlank : (a : App) (e : Event) → is_answer e ≡ false → IsBlank a → IsBlank (step a e)
unfolding step
step-IsBlank a e n h = ground arith

run-IsBlank :
    (a : App) (es : List Event) → All (λ e. is_answer e ≡ false) es → IsBlank a → IsBlank (run a es)
unfolding run
run-IsBlank a [] n h = h
run-IsBlank a (e ∷ es) (n, ns) h = run-IsBlank (step a e) es ns (step-IsBlank a e n h)

found_back-IsBlank :
    (a : App) (n : ℕ) (peer phone : String)
    → a.user_id ≡ none
    → a.launched ≡ true
    → a.finds ≡ suc n
    → IsBlank (step (step a (found (some (peer, phone)))) back)
unfolding step
found_back-IsBlank a n peer phone u l f = ground arith

-- A look-up that is answered with a contact after signing out opens a chat without a user; back from there the app is at home without
-- a user, where App shows nothing, and stays there whatever is pressed.
pub late_answer_lem :
    (a : App) (n : ℕ) (peer phone : String) (es : List Event)
    → a.user_id ≡ none
    → a.launched ≡ true
    → a.finds ≡ suc n
    → All (λ e. is_answer e ≡ false) es
    → let a' = run a (found (some (peer, phone)) ∷ back ∷ es) in
      (a'.screen ≡ home) × (a'.user_id ≡ none)
unfolding run
late_answer_lem a n peer phone es u l f ns =
    let (s, v, _) =
      run-IsBlank (step (step a (found (some (peer, phone)))) back) es ns
        (found_back-IsBlank a n peer phone u l f) in
    (s, v)
