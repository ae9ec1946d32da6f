-- ===== src/Screens/Composer.antt =====
-- The text box of a chat (apps/mobile/src/screens/ChatScreen.tsx: stopTyping, handleDraftChange and
-- the effect that stops typing; apps/mobile/src/store/conversations.ts: the guard of sendTyping). Each
-- call of `conversationStore.sendTyping` is a signal, the newest first, and goes out if the
-- conversation has a message by then. The idle timer holds the time at which it is due. The refs outlive a change of the peer.
use hwfa.Common.Text.{trim}
use hwfa.Common.{
  ℕ, ◌+◌, ◌-◌, Bool, true, false, Option, none, some, List, [], ◌∷◌, String, ltb, ◌==◌, includes,
  if◌then◌else◌,
}

pub record Signal : Type 0 where
  pub at : ℕ
  pub peer : String
  pub typing : Bool
  pub goes_out : Bool

pub record Composer : Type 0 where
  pub peer_user_id : String
  pub draft : String
  pub last_typing_sent : ℕ
  pub typing_active : Bool
  pub idle_timer : Option ℕ
  pub signals : List Signal
  -- The conversations that have a message.
  pub threads : List String

abbrev pub typing_throttle_ms : ℕ
typing_throttle_ms = 3000

abbrev pub typing_idle_ms : ℕ
typing_idle_ms = 4000

-- `sendTyping` returns at once where the conversation has no message.
abbrev send_typing : Composer → ℕ → Bool → Composer
send_typing c now typing = record c {
  signals =
      (record {
        at = now;
        peer = c.peer_user_id;
        typing = typing;
        goes_out = includes c.peer_user_id c.threads;
      })
      ∷ c.signals;
}

unfoldable pub stop_typing : Composer → ℕ → Composer
stop_typing c now =
    let c' = record c { idle_timer = none } in
    if c.typing_active
    then send_typing (record c' { typing_active = false; last_typing_sent = 0 }) now false
    else c'

unfoldable pub announce : Composer → ℕ → Composer
announce c now =
    if ltb typing_throttle_ms (now - c.last_typing_sent)
    then send_typing (record c { last_typing_sent = now; typing_active = true }) now true
    else c

unfoldable pub handle_draft_change : Composer → ℕ → String → Composer
unfolding stop_typing announce
handle_draft_change c now text =
    let c' = record c { draft = text } in
    if text == ""
    then stop_typing c' now
    else record (announce c' now) { idle_timer = some (now + typing_idle_ms) }

-- The timer clears itself only if it is set.
unfoldable pub idle_fired : Composer → ℕ → Composer
unfolding stop_typing
idle_fired c now = elim c.idle_timer [ none ↦ c | some due ↦ stop_typing c now ]

-- The clean-up of the effect runs with the old peer.
unfoldable pub peer_changed : Composer → ℕ → String → Composer
unfolding stop_typing
peer_changed c now peer = record (stop_typing c now) { peer_user_id = peer }

-- `handleSend`, up to `conversationStore.send`: the text that is sent, if the draft has any.
unfoldable pub handle_send : Composer → ℕ → Option String × Composer
unfolding stop_typing trim
handle_send c now =
    if trim c.draft == ""
    then (none, c)
    else (some (trim c.draft), stop_typing (record c { draft = "" }) now)

pub data Event : Type 0 where
  typed : String → Event
  idled : Event
  peer_set : String → Event
  sent : Event
  message_stored : String → Event
  closed : Event

unfoldable pub step : Composer → ℕ → Event → Composer
unfolding handle_draft_change idle_fired peer_changed handle_send stop_typing
step c now (typed text) = handle_draft_change c now text
step c now idled = idle_fired c now
step c now (peer_set peer) = peer_changed c now peer
step c now sent = (handle_send c now).1
step c now closed = stop_typing c now
step c now (message_stored peer) = record c { threads = peer ∷ c.threads }

unfoldable pub run : Composer → List (ℕ × Event) → Composer
run c [] = c
run c ((now, e) ∷ es) = run (step c now e) es
