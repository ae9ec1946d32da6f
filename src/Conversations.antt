-- ===== src/Conversations.antt =====
-- The conversation store (apps/mobile/src/store/conversations.ts, class ConversationStore): its
-- state and its internal methods. The clock and our account id are arguments. What the store asks
-- of the client, of the media service and of the native store is a list of effects, oldest first.
-- Listeners are not modelled.
pub mod Receive
pub mod Outbound
pub mod Edit
pub mod Attachments
pub mod Persist
pub mod Laws
use hwfa.Common.{
  ℕ, ◌+◌, Bool, true, false, Option, none, some, List, [], ◌∷◌, ◌++◌, String, ◌==◌, or_default,
  find, if◌then◌else◌,
}
use hwfa.Common.Text.{◌+++◌, starts_with}
use hwfa.Common.Dict.{Dict, get, set, values}
use hwfa.Common.Sort.{sort_desc}
use hwfa.Common.Digits.{to_text}
use hwfa.Models.{MessageStatus, sending, sent, delivered, read, ScamVerdict}
use hwfa.Wire.{CallSignal, MediaReference}
use hwfa.Statuses.{StatusItem}
use hwfa.Typing
use hwfa.Typing.{TypingStore}

pub data MediaState : Type 0 where
  loading ready error : MediaState

pub record ChatMessage : Type 0 where
  pub id : String
  pub text : String
  pub mine : Bool
  pub at : ℕ
  pub client_ref : Option String
  pub status : Option MessageStatus
  pub envelope_id : Option String
  pub read_sent : Bool
  pub verdict : Option ScamVerdict
  pub dismissed : Bool
  pub media : Option MediaReference
  pub media_mime : Option String
  pub media_name : Option String
  pub media_size : Option ℕ
  pub media_uri : Option String
  pub media_state : Option MediaState
  pub media_saved : Bool
  pub starred : Bool
  pub sender_id : Option String

pub record GroupInfo : Type 0 where
  pub name : String
  pub members : List String

abbrev pub status_rank : MessageStatus → ℕ
status_rank sending = 0
status_rank sent = 1
status_rank delivered = 2
status_rank read = 3

pub record Conversation : Type 0 where
  pub peer_user_id : String
  pub peer_phone : Option String
  pub messages : List ChatMessage
  pub unread : ℕ
  pub last_at : ℕ
  pub group : Option GroupInfo
  pub peer_identity_b64 : Option String

pub record PersistedState : Type 0 where
  pub v : ℕ
  pub counter : ℕ
  pub conversations : List Conversation

pub data Effect : Type 0 where
  -- `getClient().sendText(peer, body, clientRef)`.
  send_text : String → String → Option String → Effect
  -- `client.sendReadReceipt(peer, envelopeId)`.
  send_read_receipt : String → String → Effect
  route_call_signal : String → CallSignal → Effect
  -- `downloadImage(ref)` and `uploadImage` for a message of a conversation.
  download : String → String → MediaReference → Effect
  upload : String → String → Effect
  -- `saveToDownloads` with the base64 data, the MIME type and the file name.
  save_to_downloads : String → String → String → Effect
  save_messages : PersistedState → Effect

pub record Store : Type 0 where
  pub convs : Dict Conversation
  pub list_snapshot : List Conversation
  pub counter : ℕ
  -- Whether a write to the native store is scheduled.
  pub save_timer : Bool
  pub typing : TypingStore
  pub statuses : List StatusItem
  pub effects : List Effect

abbrev pub init : Store
init = record {
  convs = [];
  list_snapshot = [];
  counter = 0;
  save_timer = false;
  typing = Typing.init;
  statuses = [];
  effects = [];
}

abbrev pub truthy : Option String → Option String
truthy none = none
truthy (some s) = if s == "" then none else some s

unfoldable pub is_image_mime : String → Bool
is_image_mime mime = starts_with mime "image/"

-- The bubble of an attachment.
unfoldable pub media_label : String → Option String → String
unfolding is_image_mime
media_label mime name =
    if is_image_mime mime
    then "📷 Photo"
    else if starts_with mime "video/"
    then "🎬 Video"
    else if starts_with mime "audio/"
    then "🎵 Audio"
    else "📎 " +++ or_default name "File"

abbrev fresh : String → Conversation
fresh peer = record {
  peer_user_id = peer;
  peer_phone = none;
  messages = [];
  unread = 0;
  last_at = 0;
  group = none;
  peer_identity_b64 = none;
}

-- `ensure`: the conversation, which is new and empty if there is none yet.
unfoldable pub conv_of : Store → String → Conversation
conv_of s peer = or_default (get s.convs peer) (fresh peer)

-- A conversation that the code has changed in place.
unfoldable pub put : Store → String → Conversation → Store
put s peer conv = record s { convs = set s.convs peer conv }

abbrev pub message_id : ℕ → String
message_id n = "m" +++ to_text 10 n

-- `make`: the next message, with the counter's id, and the store with the counter moved on.
unfoldable pub make : Store → String → Bool → ℕ → ChatMessage × Store
make s text mine at = (
  record {
    id = message_id s.counter;
    text = text;
    mine = mine;
    at = at;
    client_ref = none;
    status = none;
    envelope_id = none;
    read_sent = false;
    verdict = none;
    dismissed = false;
    media = none;
    media_mime = none;
    media_name = none;
    media_size = none;
    media_uri = none;
    media_state = none;
    media_saved = false;
    starred = false;
    sender_id = none;
  },
  record s { counter = s.counter + 1 },
)

unfoldable pub rebuild : Store → Store
rebuild s = record s { list_snapshot = sort_desc (λ c. c.last_at) (values s.convs) }

-- `emit`: a write to the native store is scheduled, unless one is.
unfoldable pub emit : Store → Store
emit s = record s { save_timer = true }

abbrev pub effect : Store → Effect → Store
effect s e = record s { effects = s.effects ++ e ∷ [] }

-- The new message at the end, the conversation's time, and the list built again.
unfoldable pub append_message : Store → String → Conversation → ChatMessage → ℕ → ℕ → Store
unfolding put rebuild emit
append_message s peer conv message unread at = emit (
    rebuild (
      put s peer
        (record conv { messages = conv.messages ++ message ∷ []; unread = unread; last_at = at })))

-- `getMessages`.
unfoldable pub messages_of : Store → String → List ChatMessage
messages_of s peer = elim (get s.convs peer) [ none ↦ [] | some c ↦ c.messages ]

unfoldable pub find_message : Store → String → String → Option ChatMessage
unfolding messages_of
find_message s peer id = find (λ m. m.id == id) (messages_of s peer)
