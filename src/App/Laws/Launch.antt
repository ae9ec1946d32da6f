-- ===== src/App/Laws/Launch.antt =====
-- What the launch restores and shows.
use hwfa.Common.{ℕ, true, Option, none, some, [], ◌∷◌, ◌≡◌, arith, String, ◌==◌, if◌then◌else◌}
use hwfa.Discovery.{Discovery, truthy}
use hwfa.Client.{Client}
use hwfa.Client.Connection.{resume, connect_relay}
use hwfa.App.{
  App, splash, welcome, home, init, restore_tokens, try_resume, save_account, splash_elapsed,
  resume_returned, step, run,
}

-- Who restarts the app after onboarding has the account of the onboarding, with both of its tokens, whatever the
-- fresh clients held, if Discovery gave both tokens.
pub try_resume-save_account :
    (d fresh : Discovery) (c : Client) (id phone : String) (device : ℕ)
    → truthy d.token ≡ true
    → truthy d.refresh_ ≡ true
    → let (d', c') = try_resume fresh c (some (save_account d id phone device)) in
      (d'.token ≡ d.token)
      × (d'.refresh_ ≡ d.refresh_)
      × (d'.base_url ≡ fresh.base_url)
      × (c'.user_id ≡ some id)
unfolding try_resume save_account restore_tokens resume connect_relay
try_resume-save_account d fresh c id phone device h k = ground arith

-- The user of a launch, by what `tryResume` returned.
abbrev pub user_of : Option String → Option String
user_of none = none
user_of (some id) = if id == "" then none else some id

-- What App has after the launch.
abbrev pub IsLaunched : Option String → App → Type 0
IsLaunched user a =
    (a.launched ≡ true)
    × (a.user_id ≡ user)
    × (a.screen ≡ elim user [ none ↦ welcome | some id ↦ home ])
    × (a.starts ≡ elim user [ none ↦ 0 | some id ↦ 1 ])

-- A launch ends the same way whichever of its two promises comes first: at home, as the user whose account
-- was resumed and with the conversation store started once, or at the welcome screen with no user; and
-- until both have come the splash stays.
pub launch_lem :
    (id : Option String)
    → IsLaunched (user_of id) (run init (splash_elapsed ∷ resume_returned id ∷ []))
      × IsLaunched (user_of id) (run init (resume_returned id ∷ splash_elapsed ∷ []))
      × ((run init (splash_elapsed ∷ [])).screen ≡ splash)
      × ((run init (resume_returned id ∷ [])).screen ≡ splash)
unfolding run step
launch_lem none = ground arith
launch_lem (some id) = ground arith
