-- ===== src/Broadcast/Laws.antt =====
-- What the count of a posted status says.
use mathlib.Core.Path.{ap₂}
use hwfa.Common.{
  ℕ, ◌+◌, ◌≡◌, refl, ◌∙◌, arith, ◌&&◌, List, [], ◌∷◌, String, ◌==◌, is_some, length, if◌then◌else◌,
  Option-cases, inl, inr,
}
use hwfa.Wire.{Json, StatusPayload}
use hwfa.Statuses.{StatusItem}
use hwfa.Client.{Client}
use hwfa.Client.Messages.{
  Services, devices_for_peer, ensure_session, send_to_device, send_all, send_text,
}
use hwfa.Broadcast.{can_send, broadcast, post_status}

-- The socket and the account are those of before.
abbrev SameLink : Client → Client → Type 0
SameLink c c' = (c'.relay ≡ c.relay) × (c'.user_id ≡ c.user_id)

module _ (services : Services) (now socket : ℕ) (me peer text ref : String) where
  ensure_session-SameLink :
      (c : Client) (device : String) → SameLink c (ensure_session services c device).1
  unfolding ensure_session
  ensure_session-SameLink c device = (ground arith, ground arith)

  send_to_device-SameLink :
      (c : Client) (device : String)
      → SameLink c (send_to_device services c now socket me peer text ref device)
  unfolding send_to_device
  send_to_device-SameLink c device = (
    ground (arith, ensure_session-SameLink c device),
    ground (arith, ensure_session-SameLink c device),
  )

  send_all-SameLink :
      (c : Client) (devices : List String)
      → SameLink c (send_all services c now socket me peer text ref devices)
  unfolding send_all
  send_all-SameLink c [] = (refl, refl)
  send_all-SameLink c (d ∷ ds) =
      let c' = if d == me then c else send_to_device services c now socket me peer text ref d in
      let (r, u) = send_all-SameLink c' ds in
      let (r', u') = send_to_device-SameLink c d in (r ∙ ground (arith, r'), u ∙ ground (arith, u'))

  devices_for_peer-SameLink : (c : Client) → SameLink c (devices_for_peer services c now peer).1
  unfolding devices_for_peer
  devices_for_peer-SameLink c = (ground arith, ground arith)

send_text-SameLink :
    (services : Services) (c : Client) (now : ℕ) (peer text ref : String)
    → SameLink c (send_text services c now peer text ref)
unfolding send_text
send_text-SameLink services c now peer text ref = elim (Option-cases c.relay) [
  | inl r ↦ (rw (r, send_text) r, rw (r, send_text) refl)
  | inr (socket, r) ↦ elim (Option-cases c.user_id) [
    | inl u ↦ (rw (r, u, send_text) r, rw (r, u, send_text) u)
    | inr (me, u) ↦
        let (devices, c') = devices_for_peer services c now peer in
        let (a, b) = devices_for_peer-SameLink services now socket me peer text ref c in
        let (a', b') = send_all-SameLink services now socket me peer text ref c' devices in
        (rw (r, u, send_text) (a' ∙ a ∙ r), rw (r, u, send_text) (b' ∙ b ∙ u))
  ]
]

can_send-send_text :
    (services : Services) (c : Client) (now : ℕ) (peer text ref : String)
    → can_send (send_text services c now peer text ref) ≡ can_send c
can_send-send_text services c now peer text ref =
    let (r, u) = send_text-SameLink services c now peer text ref in
    ap₂ (λ a b. is_some a && is_some b) r u

broadcast_count :
    (services : Services) (refs : String → String) (now : ℕ) (body : String) (peers : List String)
    (c : Client) (sent : ℕ)
    → (broadcast services refs now body peers c sent).1
      ≡ sent + (if can_send c then length peers else 0)
unfolding broadcast
broadcast_count services refs now body [] c sent = ground arith
broadcast_count services refs now body (peer ∷ peers) c sent =
    broadcast_count services refs now body peers (send_text services c now peer body (refs peer)) _
    ∙ ground (arith, can_send-send_text services c now peer body (refs peer))

-- `postStatus` returns the number of conversations if the client has a socket and an account, whoever
-- of the peers can be reached, and 0 otherwise.
pub post_status_count :
    (services : Services) (json : Json StatusPayload) (refs : String → String) (now : ℕ)
    (id text : String) (peers : List String) (c : Client) (statuses : List StatusItem)
    → (post_status services json refs now id text peers c statuses).sent
      ≡ (if can_send c then length peers else 0)
unfolding post_status
post_status_count services json refs now id text peers c statuses =
    broadcast_count services refs now _ peers c 0 ∙ omega arith
