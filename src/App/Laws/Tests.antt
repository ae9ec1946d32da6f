-- ===== src/App/Laws/Tests.antt =====
-- The app on concrete inputs.
use hwfa.Common.{true, none, some, [], ◌∷◌, ◌≡◌, refl}
use hwfa.Discovery.{Discovery}
use hwfa.Client
use hwfa.App
use hwfa.App.{
  App, splash, home, chat, splash_elapsed, resume_returned, resume_failed, agreed, contacts_opened,
  settings_opened, find_pressed, back, sign_out_pressed, found, signed_out, try_resume,
  save_account, run,
}
use hwfa.App.Push
use hwfa.App.Push.{Push, signed_in, permission_came, token_came, woke}
use hwfa.App.Laws.Launch.{try_resume-save_account}
use hwfa.App.Laws.Navigation.{IsSignedIn, run-IsSignedIn}
use hwfa.App.Laws.Push.{IsSingle, run-IsSingle}

abbrev old : Discovery
old = record { base_url = "https://d"; token = some "t"; refresh_ = some "r" }

abbrev fresh : Discovery
fresh = record { base_url = "https://d"; token = none; refresh_ = none }

try_resume-save_account_example :
    let (d', c') = try_resume fresh Client.init (some (save_account old "al" "+1" 2)) in
    (d'.token ≡ some "t")
    × (d'.refresh_ ≡ some "r")
    × (d'.base_url ≡ "https://d")
    × (c'.user_id ≡ some "al")
try_resume-save_account_example =
    try_resume-save_account old fresh Client.init "al" "+1" 2 refl refl

run-IsSignedIn_example : IsSignedIn (
    run App.init (
      splash_elapsed
      ∷ resume_returned (some "al")
      ∷ contacts_opened
      ∷ find_pressed
      ∷ back
      ∷ found (some ("bob", "+2"))
      ∷ []))
unfolding run App.step
run-IsSignedIn_example =
    run-IsSignedIn App.init
      (splash_elapsed
        ∷ resume_returned (some "al")
        ∷ contacts_opened
        ∷ find_pressed
        ∷ back
        ∷ found (some ("bob", "+2"))
        ∷ [])
      (tt, (tt, (tt, (tt, (tt, (refl, tt)))))) refl

-- A look-up and a sign-out, both of which are asked for and not yet answered.
abbrev gone : App
gone = record App.init { launched = true; screen = App.welcome; finds = 1 }

run-IsSingle_example :
    IsSingle (Push.run Push.init (signed_in ∷ permission_came ∷ token_came (some "t") ∷ woke ∷ []))
run-IsSingle_example =
    run-IsSingle Push.init (signed_in ∷ permission_came ∷ token_came (some "t") ∷ woke ∷ [])
      (record { counted = refl; owned = tt })
