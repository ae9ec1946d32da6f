-- ===== src/App/Laws/Push.antt =====
-- The subscriptions of the push notifications.
use hwfa.Common.{
  ℕ, ◌+◌, true, Option, none, some, List, [], ◌∷◌, ◌≡◌, arith, String, is_some, length,
  if◌then◌else◌,
}
use hwfa.App.Push.{
  Push, Event, Cleanup, no_op, unsubscribe, init, signed_in, signed_out, permission_came,
  token_came, step, run,
}

-- The effect's clean-up is that of the one subscription there is.
abbrev pub Owns : Option (ℕ × Cleanup) → List ℕ → Type 0
Owns (some (n, unsubscribe)) live = live ≡ n ∷ []
Owns _ live = Unit

-- Started exactly if a call waits or a subscription is there, and never more than one of these.
pub record IsSingle (p : Push) : Type 0 where
  pub counted : length p.live + (if is_some p.pending then 1 else 0) ≡ (if p.started then 1 else 0)
  pub owned : Owns p.effect p.live

step-IsSingle : (p : Push) (e : Event) → IsSingle p → IsSingle (step p e)
unfolding step
step-IsSingle p e h = record { counted = ground arith; owned = ground arith }

-- Whoever signs in and out, and however the dialog and the native module answer meanwhile: there is never more than one
-- subscription to push notifications, counting a set-up that waits, and `started` says whether
-- there is one.
pub run-IsSingle : (p : Push) (es : List Event) → IsSingle p → IsSingle (run p es)
unfolding run
run-IsSingle p [] h = h
run-IsSingle p (e ∷ es) h = run-IsSingle (step p e) es (step-IsSingle p e h)

-- No clean-up will remove a subscription.
abbrev NotOwned : Option (ℕ × Cleanup) → Type 0
NotOwned none = Unit
NotOwned (some (n, no_op)) = Unit
NotOwned _ = ⊥

record IsLeaked (p : Push) : Type 0 where
  live : p.live ≡ 0 ∷ []
  started : p.started ≡ true
  idle : p.pending ≡ none
  lost : NotOwned p.effect

step-IsLeaked : (p : Push) (e : Event) → IsLeaked p → IsLeaked (step p e)
unfolding step
step-IsLeaked p e h = record {
  live = ground arith;
  started = ground arith;
  idle = ground arith;
  lost = ground arith;
}

run-IsLeaked : (p : Push) (es : List Event) → IsLeaked p → IsLeaked (run p es)
unfolding run
run-IsLeaked p [] h = h
run-IsLeaked p (e ∷ es) h = run-IsLeaked (step p e) es (step-IsLeaked p e h)

abandoned-IsLeaked :
    (t : Option String)
    → IsLeaked (run init (signed_in ∷ signed_out ∷ permission_came ∷ token_came t ∷ []))
unfolding run step
abandoned-IsLeaked t = record {
  live = ground arith;
  started = ground arith;
  idle = ground arith;
  lost = ground arith;
}

-- Who signs out while the permission dialog is open leaves the first user's subscription behind: whatever happens after, it is
-- the only one and stays, and later sign-ins set up none of their own.
pub abandoned_lem :
    (t : Option String) (es : List Event)
    → let p = run init (signed_in ∷ signed_out ∷ permission_came ∷ token_came t ∷ es) in
      (p.live ≡ 0 ∷ []) × (p.pending ≡ none)
unfolding run
abandoned_lem t es =
    let h =
      run-IsLeaked (run init (signed_in ∷ signed_out ∷ permission_came ∷ token_came t ∷ [])) es
        (abandoned-IsLeaked t) in
    (h.live, h.idle)
