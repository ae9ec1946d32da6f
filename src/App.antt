-- ===== src/App.antt =====
-- Starting the app and its screens (apps/mobile/App.tsx: the launch effect and the callbacks of the
-- screens; apps/mobile/src/client/hwfaClient.ts: tryResume, saveAccount). React's render is not
-- modelled: a callback is an event that the screen on show can send. The account in the native
-- store and the fate of `resume` come with the events. App stays mounted.
pub mod Push
pub mod Laws
use hwfa.Common.{
  ℕ, zero, suc, is_some, Bool, true, false, not, ◌&&◌, ◌||◌, ◌==◌, Option, none, some, List, [],
  ◌∷◌, String, or_default, if◌then◌else◌,
}
use hwfa.Discovery.{Discovery, truthy, set_token, set_tokens}
use hwfa.Client
use hwfa.Client.{Client}
use hwfa.Client.Connection.{resume}

-- What the native store keeps of an account.
pub record Account : Type 0 where
  pub account_id : String
  pub phone : String
  pub token : String
  pub refresh_token : String
  pub device_id : ℕ

-- The tokens that `tryResume` hands to Discovery; the second case is the store of an older version.
unfoldable pub restore_tokens : Discovery → Account → Discovery
unfolding set_token set_tokens
restore_tokens d account =
    if truthy (some account.token) && truthy (some account.refresh_token)
    then set_tokens d account.token account.refresh_token
    else if truthy (some account.token)
    then set_token d account.token
    else d

-- `tryResume`, up to the outcome of `resume`.
unfoldable pub try_resume : Discovery → Client → Option Account → Discovery × Client
unfolding restore_tokens
try_resume d c none = (d, c)
try_resume d c (some account) =
    (restore_tokens d account, resume c account.account_id account.device_id)

-- What the store keeps after `saveAccount`; an absent token is saved as an empty one. The native
-- module adds the device id.
unfoldable pub save_account : Discovery → String → String → ℕ → Account
save_account d account_id phone device_id = record {
  account_id = account_id;
  phone = phone;
  token = or_default d.token "";
  refresh_token = or_default d.refresh_ "";
  device_id = device_id;
}

pub data Screen : Type 0 where
  splash welcome onboarding home contacts settings starred new_group link_device devices : Screen
  chat safety : String → Option String → Screen

pub record App : Type 0 where
  pub user_id : Option String
  pub screen : Screen
  -- The two promises of the launch: what `tryResume` returned, and whether the splash was held.
  pub resumed : Option (Option String)
  pub splash_held : Bool
  -- The launch is over, by a result or by an error.
  pub launched : Bool
  -- Calls of `conversationStore.start`.
  pub starts : ℕ
  -- What a screen waits for and then calls back, also when it is no longer on show: `handleFind` of
  -- the contacts screen, and `signOut` and `deleteAccount` of the settings screen.
  pub finds : ℕ
  pub sign_outs : ℕ

abbrev pub init : App
init = record {
  user_id = none;
  screen = splash;
  resumed = none;
  splash_held = false;
  launched = false;
  starts = 0;
  finds = 0;
  sign_outs = 0;
}

-- `onOnboarded`, and the launch with an account.
abbrev signed_in : App → String → App
signed_in a id = record a { user_id = some id; starts = suc a.starts; screen = home }

-- `Promise.all`: nothing until both have come.
unfoldable pub settle_launch : App → App
settle_launch a = if a.launched || not a.splash_held then a else elim a.resumed [
  | none ↦ a
  | some none ↦ record a { launched = true; screen = welcome }
  | some (some id) ↦
      if id == ""
      then record a { launched = true; screen = welcome }
      else signed_in (record a { launched = true }) id
]

pub data Event : Type 0 where
  splash_elapsed resume_failed : Event
  resume_returned : Option String → Event
  agreed : Event
  onboarded : String → Event
  contacts_opened settings_opened starred_opened group_opened link_opened devices_opened : Event
  chat_opened : String → Option String → Event
  group_created : String → Event
  verify_pressed back find_pressed sign_out_pressed : Event
  -- The answers to the last two: `found none` opens no chat, and a failed deletion signs nobody out.
  found : Option (String × String) → Event
  signed_out : Bool → Event

-- The screens that App shows only to a user.
abbrev pub is_gated : Screen → Bool
is_gated splash = false
is_gated welcome = false
is_gated onboarding = false
is_gated (chat peer phone) = false
is_gated (safety peer phone) = false
is_gated _ = true

-- The callbacks that the screen on show has; the others do nothing there.
unfoldable pub on_screen : Screen → Event → App → App
on_screen welcome agreed a = record a { screen = onboarding }
on_screen onboarding (onboarded id) a = signed_in a id
on_screen home contacts_opened a = record a { screen = contacts }
on_screen home settings_opened a = record a { screen = settings }
on_screen home starred_opened a = record a { screen = starred }
on_screen home group_opened a = record a { screen = new_group }
on_screen home (chat_opened peer phone) a = record a { screen = chat peer phone }
on_screen contacts (chat_opened peer phone) a = record a { screen = chat peer phone }
on_screen starred (chat_opened peer phone) a = record a { screen = chat peer phone }
on_screen new_group (group_created gid) a = record a { screen = chat gid none }
on_screen settings link_opened a = record a { screen = link_device }
on_screen settings devices_opened a = record a { screen = devices }
on_screen contacts find_pressed a = record a { finds = suc a.finds }
on_screen settings sign_out_pressed a = record a { sign_outs = suc a.sign_outs }
on_screen contacts back a = record a { screen = home }
on_screen settings back a = record a { screen = home }
on_screen starred back a = record a { screen = home }
on_screen new_group back a = record a { screen = home }
on_screen link_device back a = record a { screen = settings }
on_screen devices back a = record a { screen = settings }
on_screen (chat peer phone) back a = record a { screen = home }
on_screen (chat peer phone) verify_pressed a = record a { screen = safety peer phone }
on_screen (safety peer phone) back a = record a { screen = chat peer phone }
on_screen _ _ a = a

unfoldable pub find_answered : App → Option (String × String) → App
find_answered a result = elim a.finds [
  | zero ↦ a
  | suc n ↦ elim result [
    | none ↦ record a { finds = n }
    | some r ↦ record a { finds = n; screen = chat r.0 (some r.1) }
  ]
]

unfoldable pub sign_out_answered : App → Bool → App
sign_out_answered a done = elim a.sign_outs [
  | zero ↦ a
  | suc n ↦
      if done
      then record a { sign_outs = n; user_id = none; screen = welcome }
      else record a { sign_outs = n }
]

unfoldable pub step : App → Event → App
unfolding settle_launch on_screen find_answered sign_out_answered
step a splash_elapsed = settle_launch (record a { splash_held = true })
step a (resume_returned id) = settle_launch (record a { resumed = some id })
step a resume_failed = if a.launched then a else record a { launched = true; screen = welcome }
step a (found result) = find_answered a result
step a (signed_out done) = sign_out_answered a done
step a e = if is_gated a.screen && not (is_some a.user_id) then a else on_screen a.screen e a

unfoldable pub run : App → List Event → App
run a [] = a
run a (e ∷ es) = run (step a e) es
