-- ===== src/Relay.antt =====
-- The connection to the relay (packages/client/src/relay.ts, class RelayConnection).
-- A socket is a number, each new socket the next one. What the connection does to its sockets, to
-- its handlers and to the promises of `connect` is the list of outputs of an operation, oldest first.
-- The handlers do not call the connection back before they return. JSON.parse and
-- encodeURIComponent are parameters; JSON.stringify is not applied to what is written.
use hwfa.Common.{
  ℕ, suc, Bool, true, false, Option, none, some, List, [], ◌∷◌, ◌++◌, String, nat_eq, if◌then◌else◌,
}
use hwfa.Common.Text.{◌+++◌}
use hwfa.Common.Digits.{to_text}
use hwfa.Models.{
  Submission, Envelope, Receipt, RelayMessage, send as send_message, deliver, ack, receipt, status,
  register_push,
}
pub mod Laws

-- The handlers that may be left out: whether each is there.
pub record RelayHandlers : Type 0 where
  pub on_ack : Bool
  pub on_status : Bool
  pub on_open : Bool
  pub on_close : Bool

pub record RelayConnection : Type 0 where
  pub relay_url : String
  pub token : String
  pub device_id : ℕ
  pub handlers : RelayHandlers
  -- The implementation has `addEventListener` or `on`.
  pub can_listen : Bool
  pub ws : Option ℕ
  pub next_socket : ℕ
  -- The sockets whose `connect` has not been settled.
  pub pending : List ℕ

pub data Output : Type 0 where
  constructed : ℕ → String → Output
  written : ℕ → RelayMessage → Output
  shut : ℕ → Output
  delivered : Envelope → Output
  acked : Option String → String → Output
  status_told : String → Receipt → Output
  opened closed : Output
  resolved rejected : ℕ → Output
  thrown : Output

unfoldable pub send : RelayConnection → RelayMessage → List Output
send r msg = elim r.ws [ none ↦ thrown ∷ [] | some socket ↦ written socket msg ∷ [] ]

unfoldable pub send_envelope : RelayConnection → Submission → Option String → List Output
unfolding send
send_envelope r envelope client_ref = send r (send_message envelope client_ref)

unfoldable pub send_read_receipt : RelayConnection → String → String → ℕ → List Output
unfolding send
send_read_receipt r envelope_id target_id target_device =
    send r (receipt envelope_id Receipt.read target_id target_device)

unfoldable pub register_push_token : RelayConnection → String → List Output
unfolding send
register_push_token r token = send r (register_push token)

-- The receipt that tells the sender and drops the copy of the relay.
abbrev pub confirm : Envelope → RelayMessage
confirm env = receipt env.id Receipt.delivered env.sender_id env.sender_device

abbrev when : Bool → Output → List Output
when b o = if b then o ∷ [] else []

-- The `message` listener, on a text that parses.
unfoldable pub on_message : RelayConnection → RelayMessage → List Output
unfolding send
on_message r (deliver env) = delivered env ∷ send r (confirm env)
on_message r (ack envelope_id at client_ref) = when r.handlers.on_ack (acked client_ref envelope_id)
on_message r (status envelope_id s) = when r.handlers.on_status (status_told envelope_id s)
on_message r (send_message envelope client_ref) = []
on_message r (receipt envelope_id s target device) = []
on_message r (register_push token) = []

unfoldable pub on_text : (String → Option RelayMessage) → RelayConnection → String → List Output
unfolding on_message
on_text parse r text = elim (parse text) [ none ↦ thrown ∷ [] | some msg ↦ on_message r msg ]

abbrev pub without : ℕ → List ℕ → List ℕ
without n [] = []
without n (m ∷ ms) = if nat_eq n m then without n ms else m ∷ without n ms

abbrev pub waits : ℕ → List ℕ → Bool
waits n [] = false
waits n (m ∷ ms) = if nat_eq n m then true else waits n ms

-- A promise takes its first answer only.
unfoldable pub settle : RelayConnection → ℕ → Output → List Output × RelayConnection
settle r socket answer =
    (when (waits socket r.pending) answer, record r { pending = without socket r.pending })

-- `this.ws` is set before the listeners are, so it stays when `listen` throws.
unfoldable pub connect : (String → String) → RelayConnection → List Output × RelayConnection
connect encode r =
    let url =
      r.relay_url +++ "?token=" +++ encode r.token +++ "&deviceId=" +++ to_text 10 r.device_id in
    let r' = record r { ws = some r.next_socket; next_socket = suc r.next_socket } in
    if r.can_listen
    then (constructed r.next_socket url ∷ [], record r' { pending = r.next_socket ∷ r.pending })
    else (constructed r.next_socket url ∷ thrown ∷ [], r')

unfoldable pub on_open : RelayConnection → ℕ → List Output × RelayConnection
unfolding settle
on_open r socket =
    let (answers, r') = settle r socket (resolved socket) in
    (when r.handlers.on_open opened ++ answers, r')

unfoldable pub on_error : RelayConnection → ℕ → List Output × RelayConnection
unfolding settle
on_error r socket = settle r socket (rejected socket)

unfoldable pub on_close : RelayConnection → List Output
on_close r = when r.handlers.on_close closed

unfoldable pub close : RelayConnection → List Output × RelayConnection
close r = elim r.ws [ none ↦ ([], r) | some socket ↦ (shut socket ∷ [], record r { ws = none }) ]

-- Calls of the methods and events of a socket.
pub data Event : Type 0 where
  connected closed_by_user : Event
  envelope_sent : Submission → Option String → Event
  read_sent : String → String → ℕ → Event
  push_registered : String → Event
  text_came : String → Event
  socket_open socket_failed : ℕ → Event
  socket_gone : Event

abbrev pub listening :
    RelayConnection → List Output × RelayConnection → List Output × RelayConnection
listening r result = if r.can_listen then result else ([], r)

module _ (encode : String → String) (parse : String → Option RelayMessage) where
  unfoldable pub step : RelayConnection → Event → List Output × RelayConnection
  step r connected = connect encode r
  step r closed_by_user = close r
  step r (envelope_sent envelope client_ref) = (send_envelope r envelope client_ref, r)
  step r (read_sent envelope_id target device) = (send_read_receipt r envelope_id target device, r)
  step r (push_registered token) = (register_push_token r token, r)
  step r (text_came text) = listening r (on_text parse r text, r)
  step r (socket_open socket) = listening r (on_open r socket)
  step r (socket_failed socket) = listening r (on_error r socket)
  step r socket_gone = listening r (on_close r, r)

  unfoldable pub run : RelayConnection → List Event → List Output × RelayConnection
  run r [] = ([], r)
  run r (e ∷ es) =
      let (outputs, r') = step r e in let (later, last) = run r' es in (outputs ++ later, last)
