-- ===== src/Conversations/Edit.antt =====
-- Changes to messages that are there (conversations.ts: patch, applyStatus, markRead, toggleStar,
-- getStarred, dismissScamWarning, setPeerIdentity, ensurePeer, reset).
use hwfa.Common.{
  Bool, true, false, not, ◌&&◌, ◌||◌, Option, none, some, List, [], ◌∷◌, ◌++◌, map, String, ◌==◌,
  same_text, is_some, or_default, or_else, leb, nat_eq, find, update_first, filter, if◌then◌else◌,
}
use hwfa.Common.Dict.{Dict, get, values}
use hwfa.Common.Sort.{sort_desc}
use hwfa.Models.{MessageStatus}
use hwfa.Typing
use hwfa.Conversations.{
  ChatMessage, Conversation, Store, Effect, send_read_receipt, save_messages, status_rank, truthy,
  conv_of, put, rebuild, emit, effect,
}

-- `patch`: one message of one conversation, by its id.
unfoldable pub patch : Store → String → String → (ChatMessage → ChatMessage) → Store
unfolding put rebuild emit
patch s peer id fields = elim (get s.convs peer) [
  | none ↦ s
  | some conv ↦
      if is_some (find (λ m. m.id == id) conv.messages)
      then emit (
          rebuild (
            put s peer
              (record conv { messages = update_first (λ m. m.id == id) fields conv.messages })))
      else s
]

-- A status that is not above the message's own is dropped. No status ranks below all others.
unfoldable pub raises : ChatMessage → MessageStatus → Bool
raises m status = elim m.status [
  | none ↦ true
  | some current ↦ not (leb (status_rank status) (status_rank current))
]

abbrev pub has_ref : String → ChatMessage → Bool
has_ref ref m = same_text m.client_ref (some ref)

unfoldable pub raised : MessageStatus → ChatMessage → ChatMessage
unfolding raises
raised status m = if raises m status then record m { status = some status } else m

-- The first message with the reference, in the map's order of conversations.
unfoldable pub find_ref : String → Dict Conversation → Option ChatMessage
find_ref ref [] = none
find_ref ref ((k, c) ∷ cs) = or_else (find (has_ref ref) c.messages) (find_ref ref cs)

-- The change in place, in the first conversation that has the reference.
unfoldable pub status_convs : String → MessageStatus → Dict Conversation → Dict Conversation
status_convs ref status [] = []
status_convs ref status ((k, c) ∷ cs) =
    if is_some (find (has_ref ref) c.messages)
    then (k, record c { messages = update_first (has_ref ref) (raised status) c.messages }) ∷ cs
    else (k, c) ∷ status_convs ref status cs

unfoldable pub apply_status : Store → String → MessageStatus → Store
unfolding find_ref status_convs rebuild emit
apply_status s ref status = elim (find_ref ref s.convs) [
  | none ↦ s
  | some m ↦
      if raises m status
      then emit (rebuild (record s { convs = status_convs ref status s.convs }))
      else s
]

-- An inbound message whose envelope has not been receipted.
unfoldable pub needs_receipt : ChatMessage → Bool
needs_receipt m = not (m.mine || m.read_sent || not (is_some (truthy m.envelope_id)))

unfoldable pub mark_message : ChatMessage → ChatMessage
mark_message m = if needs_receipt m then record m { read_sent = true } else m

-- In a group the receipt goes to the real sender. A receipt that throws is passed over.
unfoldable pub receipts : String → List ChatMessage → List Effect
receipts peer [] = []
receipts peer (m ∷ ms) =
    let rest = receipts peer ms in
    if needs_receipt m
    then send_read_receipt (or_default m.sender_id peer) (or_default m.envelope_id "") ∷ rest
    else rest

unfoldable pub mark_read : Store → String → Store
unfolding mark_message receipts put rebuild emit
mark_read s peer = elim (get s.convs peer) [
  | none ↦ s
  | some conv ↦
      let conv' = record conv { messages = map mark_message conv.messages; unread = 0 } in
      let s' = put (record s { effects = s.effects ++ receipts peer conv.messages }) peer conv' in
      if is_some (find needs_receipt conv.messages) || not (nat_eq conv.unread 0)
      then emit (rebuild s')
      else s'
]

-- Every message with the id, in one conversation.
unfoldable pub map_message : Store → String → String → (ChatMessage → ChatMessage) → Store
unfolding put rebuild emit
map_message s peer id f = elim (get s.convs peer) [
  | none ↦ s
  | some conv ↦ emit (
      rebuild (
        put s peer
          (record conv { messages = map (λ m. if m.id == id then f m else m) conv.messages })))
]

unfoldable pub toggle_star : Store → String → String → Store
unfolding map_message
toggle_star s peer id = map_message s peer id (λ m. record m { starred = not m.starred })

unfoldable pub dismiss_scam_warning : Store → String → String → Store
unfolding map_message
dismiss_scam_warning s peer id = map_message s peer id (λ m. record m { dismissed = true })

pub record StarredMessage : Type 0 where
  pub message : ChatMessage
  pub peer_user_id : String
  pub peer_phone : Option String

starred_in : Conversation → List StarredMessage
starred_in c =
    map (λ m. record { message = m; peer_user_id = c.peer_user_id; peer_phone = c.peer_phone })
      (filter (λ m. m.starred) c.messages)

starred_of : List Conversation → List StarredMessage
unfolding starred_in
starred_of [] = []
starred_of (c ∷ cs) = starred_in c ++ starred_of cs

unfoldable pub get_starred : Store → List StarredMessage
unfolding starred_of
get_starred s = sort_desc (λ x. x.message.at) (starred_of (values s.convs))

unfoldable pub set_peer_identity : Store → String → String → Store
unfolding put rebuild emit
set_peer_identity s peer identity = elim (get s.convs peer) [
  | none ↦ s
  | some conv ↦
      if same_text conv.peer_identity_b64 (some identity)
      then s
      else emit (rebuild (put s peer (record conv { peer_identity_b64 = some identity })))
]

-- Without a phone, or with the known one, the list is not built again.
unfoldable pub ensure_peer : Store → String → Option String → Store
unfolding conv_of put rebuild emit
ensure_peer s peer phone =
    let conv = conv_of s peer in
    if is_some (truthy phone) && not (same_text conv.peer_phone phone)
    then emit (rebuild (put s peer (record conv { peer_phone = phone })))
    else put s peer conv

unfoldable pub reset : Store → Store
unfolding rebuild emit
reset s =
    effect
      (emit (
        rebuild (record s {
          convs = [];
          counter = 0;
          save_timer = false;
          typing = Typing.clear s.typing;
        })))
      (save_messages (record { v = 1; counter = 0; conversations = [] }))
