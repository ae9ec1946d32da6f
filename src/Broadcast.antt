-- ===== src/Broadcast.antt =====
-- Posting a status (apps/mobile/src/status/post.ts): it is recorded, then sent to the peer of every
-- conversation. The sends, which the source starts together, are made one after the other here.
-- `refs` gives the client reference that `sendText` makes for a peer.
pub mod Laws
use hwfa.Common.{ℕ, suc, Bool, ◌&&◌, List, [], ◌∷◌, String, is_some, if◌then◌else◌}
use hwfa.Wire.{Json, StatusPayload}
use hwfa.Wire.Bodies.{build_status_body}
use hwfa.Statuses.{StatusItem, add_own, new_status}
use hwfa.Client.{Client}
use hwfa.Client.Messages.{Services, send_text}

pub record Posted : Type 0 where
  pub client : Client
  pub statuses : List StatusItem
  pub sent : ℕ

-- `sendText` throws without a socket or an account, and only then.
abbrev pub can_send : Client → Bool
can_send c = is_some c.relay && is_some c.user_id

-- The client and the count after the sends to these peers.
unfoldable pub broadcast :
    Services → (String → String) → ℕ → String → List String → Client → ℕ → Client × ℕ
broadcast services refs now body [] c sent = (c, sent)
broadcast services refs now body (peer ∷ peers) c sent =
    broadcast services refs now body peers (send_text services c now peer body (refs peer))
      (if can_send c then suc sent else sent)

unfoldable pub post_status :
    Services
    → Json StatusPayload
    → (String → String)
    → ℕ
    → String
    → String
    → List String
    → Client
    → List StatusItem
    → Posted
unfolding broadcast
post_status services json refs now id text peers c statuses =
    let payload = new_status id text now in
    let (c', sent) = broadcast services refs now (build_status_body json payload) peers c 0 in
    record { client = c'; statuses = add_own statuses now payload; sent = sent }
