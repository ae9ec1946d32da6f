-- ===== src/Conversations/Persist.antt =====
-- Writing to and reading from the native store (conversations.ts: schedulePersist, hydrate).
use Prim.Native.Nat.{max}
use hwfa.Common.{◌+◌, false, Option, none, some, List, [], ◌∷◌, ◌++◌, map, or_else}
use hwfa.Common.Dict.{Dict, get, set, values}
use hwfa.Conversations.{
  ChatMessage, Conversation, PersistedState, Store, save_messages, rebuild, emit, effect,
}

-- The decrypted preview is not written.
abbrev pub strip_message : ChatMessage → ChatMessage
strip_message m = record m { media_uri = none; media_state = none }

abbrev pub strip : Conversation → Conversation
strip c = record c { messages = map strip_message c.messages }

unfoldable pub persisted : Store → PersistedState
persisted s = record { v = 1; counter = s.counter; conversations = map strip (values s.convs) }

-- The timer of `schedulePersist`.
unfoldable pub persist : Store → Store
unfolding persisted
persist s = effect (record s { save_timer = false }) (save_messages (persisted s))

-- A conversation that is not there is made from these fields of the stored one.
abbrev pub restored : Conversation → Conversation
restored c = record {
  peer_user_id = c.peer_user_id;
  peer_phone = c.peer_phone;
  messages = c.messages;
  unread = c.unread;
  last_at = c.last_at;
  group = none;
  peer_identity_b64 = none;
}

-- History goes before what arrived in the meantime.
abbrev pub merged : Conversation → Conversation → Conversation
merged existing c = record existing {
  messages = c.messages ++ existing.messages;
  peer_phone = or_else existing.peer_phone c.peer_phone;
  unread = existing.unread + c.unread;
  last_at = max existing.last_at c.last_at;
}

unfoldable pub hydrate_conv : Dict Conversation → Conversation → Dict Conversation
hydrate_conv convs c = elim (get convs c.peer_user_id) [
  | none ↦ set convs c.peer_user_id (restored c)
  | some existing ↦ set convs c.peer_user_id (merged existing c)
]

unfoldable pub hydrate_convs : Dict Conversation → List Conversation → Dict Conversation
hydrate_convs convs [] = convs
hydrate_convs convs (c ∷ cs) = hydrate_convs (hydrate_conv convs c) cs

-- Nothing happens where there is no stored state, or where it does not parse.
unfoldable pub hydrate : Store → Option PersistedState → Store
unfolding hydrate_convs rebuild emit
hydrate s none = s
hydrate s (some stored) = emit (
    rebuild (record s {
      counter = max s.counter stored.counter;
      convs = hydrate_convs s.convs stored.conversations;
    }))
