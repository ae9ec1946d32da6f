-- ===== src/App/Push.antt =====
-- Push notifications (apps/mobile/src/push/setup.ts: initPush; apps/mobile/App.tsx: its effect on
-- `userId`). An effect is a number, and `initPush` of an effect is cut at its two awaits. The answers of
-- the permission dialog and of the native module, wake-ups and token changes are events.
use hwfa.Common.{
  ℕ, suc, Bool, true, false, Option, none, some, List, [], ◌∷◌, String, nat_eq, ◌==◌, if◌then◌else◌,
}

pub data Stage : Type 0 where
  permission token : Stage

-- The variable `cleanup` of an effect: what `initPush` returned to it.
pub data Cleanup : Type 0 where
  unset no_op unsubscribe : Cleanup

-- What the handlers ask of the client, the newest first.
pub data Request : Type 0 where
  registered : String → Request
  woken : Request

pub record Push : Type 0 where
  pub started : Bool
  -- The call of `initPush` that waits, with the number of its effect.
  pub pending : Option (ℕ × Stage)
  -- The effects whose two subscriptions are there.
  pub live : List ℕ
  -- The effect of the user who is signed in.
  pub effect : Option (ℕ × Cleanup)
  pub next_effect : ℕ
  pub requests : List Request

abbrev pub init : Push
init = record {
  started = false;
  pending = none;
  live = [];
  effect = none;
  next_effect = 0;
  requests = [];
}

unfoldable pub init_push : Push → Push
init_push p =
    if p.started
    then record p { effect = some (p.next_effect, no_op); next_effect = suc p.next_effect }
    else record p {
      started = true;
      pending = some (p.next_effect, permission);
      effect = some (p.next_effect, unset);
      next_effect = suc p.next_effect;
    }

unfoldable pub permission_answered : Push → Push
permission_answered p = elim p.pending [
  | none ↦ p
  | some (n, stage) ↦ record p { pending = some (n, token) }
]

abbrev register_token : Push → Option String → Push
register_token p none = p
register_token p (some t) = if t == "" then p else record p { requests = registered t ∷ p.requests }

-- The effect gets the function that `initPush` returns, if it is still there.
abbrev hand_cleanup : Option (ℕ × Cleanup) → ℕ → Option (ℕ × Cleanup)
hand_cleanup none n = none
hand_cleanup (some (m, c)) n = if nat_eq m n then some (m, unsubscribe) else some (m, c)

unfoldable pub token_subscribed : Push → ℕ → Option String → Push
token_subscribed p n t = record (register_token p t) {
  pending = none;
  live = n ∷ p.live;
  effect = hand_cleanup p.effect n;
}

unfoldable pub token_answered : Push → Option String → Push
unfolding token_subscribed
token_answered p t = elim p.pending [
  | none ↦ p
  | some (n, permission) ↦ p
  | some (n, token) ↦ token_subscribed p n t
]

abbrev remove : ℕ → List ℕ → List ℕ
remove n [] = []
remove n (m ∷ ms) = let rest = remove n ms in if nat_eq n m then rest else m ∷ rest

unfoldable pub clean_up : Push → ℕ → Cleanup → Push
clean_up p n unset = p
clean_up p n no_op = p
clean_up p n unsubscribe = record p { live = remove n p.live; started = false }

-- Each subscription to wake-ups has its handler called.
abbrev wake : List ℕ → List Request → List Request
wake [] requests = requests
wake (n ∷ ns) requests = woken ∷ wake ns requests

abbrev refresh : List ℕ → String → List Request → List Request
refresh [] t requests = requests
refresh (n ∷ ns) t requests = registered t ∷ refresh ns t requests

pub data Event : Type 0 where
  signed_in signed_out permission_came woke : Event
  token_came : Option String → Event
  token_changed : String → Event

-- `userId` changes only from no user to a user and back.
unfoldable pub user_set : Push → Push
unfolding init_push
user_set p = elim p.effect [ none ↦ init_push p | some e ↦ p ]

unfoldable pub user_unset : Push → Push
unfolding clean_up
user_unset p = elim p.effect [ none ↦ p | some (n, c) ↦ record (clean_up p n c) { effect = none } ]

unfoldable pub step : Push → Event → Push
unfolding user_set user_unset permission_answered token_answered
step p signed_in = user_set p
step p signed_out = user_unset p
step p permission_came = permission_answered p
step p (token_came t) = token_answered p t
step p woke = record p { requests = wake p.live p.requests }
step p (token_changed t) = record p { requests = refresh p.live t p.requests }

unfoldable pub run : Push → List Event → Push
run p [] = p
run p (e ∷ es) = run (step p e) es
