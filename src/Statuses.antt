-- ===== src/Statuses.antt =====
-- The ephemeral status updates (apps/mobile/src/store/statuses.ts, class StatusStore, and
-- apps/mobile/src/status/post.ts). The clock is an argument; listeners are not modelled.
pub mod Order
pub mod Runs
mod Tests
use hwfa.Common.{
  ℕ, ◌+◌, ◌*◌, Bool, true, false, not, ◌&&◌, Option, none, some, List, [], ◌∷◌, ◌++◌, String, ◌==◌,
  ltb, nat_eq, filter, length, if◌then◌else◌,
}
use hwfa.Common.Sort.{sort_desc}
use hwfa.Wire.{StatusPayload}

abbrev pub status_ttl_ms : ℕ
status_ttl_ms = 24 * 60 * 60 * 1000

pub record StatusItem : Type 0 where
  pub payload : StatusPayload
  pub open payload use *
  pub from_user_id : String
  pub from_phone : Option String
  pub mine : Bool

abbrev pub is_live : ℕ → StatusItem → Bool
is_live now s = ltb now s.expires_at

-- An older copy and what has expired are dropped; an expired item is not added.
unfoldable pub upsert : List StatusItem → ℕ → StatusItem → List StatusItem
upsert items now item =
    let kept = filter (λ s. not (s.id == item.id) && is_live now s) items in
    sort_desc (λ s. s.at) (if is_live now item then kept ++ item ∷ [] else kept)

unfoldable pub add_own : List StatusItem → ℕ → StatusPayload → List StatusItem
unfolding upsert
add_own items now payload =
    upsert items now
      (record { payload = payload; from_user_id = "me"; from_phone = none; mine = true })

unfoldable pub receive_status :
    List StatusItem → ℕ → String → StatusPayload → Option String → List StatusItem
unfolding upsert
receive_status items now from payload phone =
    upsert items now
      (record { payload = payload; from_user_id = from; from_phone = phone; mine = false })

unfoldable pub prune : List StatusItem → ℕ → List StatusItem
prune items now =
    let next = filter (is_live now) items in
    if nat_eq (length next) (length items) then items else next

-- `postStatus`: the new status, and the body is sent to every conversation. `id` is made from the
-- clock and a random part.
unfoldable pub new_status : String → String → ℕ → StatusPayload
new_status id text at = record { id = id; text = text; at = at; expires_at = at + status_ttl_ms }
