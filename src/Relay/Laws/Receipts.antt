-- ===== src/Relay/Laws/Receipts.antt =====
-- What the connection confirms, and the listener as the client sees it.
use hwfa.Common.{
  ℕ, true, Option, none, some, List, [], ◌∷◌, ◌++◌, map, All, ◌≡◌, ◌≢◌, refl, sym, ap, ◌∙◌, arith,
  String, if◌then◌else◌,
}
use mathlib.Core.List.{append_assoc, map-append}
use hwfa.Models.{Envelope, Receipt, RelayMessage, receipt}
use hwfa.Relay.{
  RelayConnection, Output, written, delivered, acked, status_told, Event, closed_by_user, send,
  send_envelope, send_read_receipt, register_push_token, confirm, on_message, on_text, settle,
  connect, on_open, on_error, on_close, close, step, run,
}
use hwfa.Client
use hwfa.Client.{Client, decrypting, sent, effect, wait}
use hwfa.Client.Messages
use hwfa.Client.Messages.{handle_ack, handle_status, status_of, closed_in}

-- The delivered receipt that was written, to whichever socket.
abbrev pub receipt_of : Output → List RelayMessage
receipt_of (written socket (receipt id Receipt.delivered target device)) =
    receipt id Receipt.delivered target device ∷ []
receipt_of _ = []

-- The envelope that the client was handed.
abbrev pub delivery_of : Output → List Envelope
delivery_of (delivered env) = env ∷ []
delivery_of _ = []

abbrev pub receipts : List Output → List RelayMessage
receipts [] = []
receipts (o ∷ os) = receipt_of o ++ receipts os

abbrev pub deliveries : List Output → List Envelope
deliveries [] = []
deliveries (o ∷ os) = delivery_of o ++ deliveries os

-- Every envelope handed to the client is confirmed once, in order, to its sender.
abbrev pub IsConfirmed : List Output → Type 0
IsConfirmed os = receipts os ≡ map confirm (deliveries os)

receipts-append : (os ps : List Output) → receipts (os ++ ps) ≡ receipts os ++ receipts ps
receipts-append [] ps = refl
receipts-append (o ∷ os) ps =
    ap (λ r. receipt_of o ++ r) (receipts-append os ps)
    ∙ sym (append_assoc (receipt_of o) (receipts os) (receipts ps))

deliveries-append : (os ps : List Output) → deliveries (os ++ ps) ≡ deliveries os ++ deliveries ps
deliveries-append [] ps = refl
deliveries-append (o ∷ os) ps =
    ap (λ r. delivery_of o ++ r) (deliveries-append os ps)
    ∙ sym (append_assoc (delivery_of o) (deliveries os) (deliveries ps))

IsConfirmed-append :
    (os ps : List Output) → IsConfirmed os → IsConfirmed ps → IsConfirmed (os ++ ps)
IsConfirmed-append os ps h k =
    rw (receipts-append os ps, deliveries-append os ps, h, k)
      (sym (map-append confirm (deliveries os) (deliveries ps)))

IsConfirmed-on_message :
    (r : RelayConnection) (msg : RelayMessage) → r.ws ≢ none → IsConfirmed (on_message r msg)
unfolding on_message send
IsConfirmed-on_message r msg h = ground arith

-- An operation other than `close` confirms what it hands on, and leaves a socket to write to.
IsConfirmed-step :
    (encode : String → String) (parse : String → Option RelayMessage) (r : RelayConnection)
    (e : Event)
    → e ≢ closed_by_user
    → r.ws ≢ none
    → let (outputs, r') = step encode parse r e in IsConfirmed outputs × (r'.ws ≢ none)
unfolding step send_envelope send_read_receipt register_push_token on_text settle connect on_open
    on_error on_close close send
IsConfirmed-step encode parse r e n h = ground (arith, IsConfirmed-on_message r)

-- The connection as the client that made it hears it.
abbrev pub hears : Client → Output → Client
hears c (written socket msg) = effect c (sent socket msg)
hears c (delivered env) = wait c (decrypting env)
hears c (acked client_ref envelope_id) = handle_ack c client_ref envelope_id
hears c (status_told envelope_id s) = handle_status c envelope_id (status_of s)
hears c _ = c

abbrev pub hears_all : Client → List Output → Client
hears_all c [] = c
hears_all c (o ∷ os) = hears_all (hears c o) os

-- With the client's handlers, the client's listener does what the listener of the connection tells
-- it to, for every message: on a socket that the client has closed the connection has none.
pub on_message-refines :
    (c : Client) (socket : ℕ) (r : RelayConnection) (msg : RelayMessage)
    → r.handlers.on_ack ≡ true
    → r.handlers.on_status ≡ true
    → r.ws ≡ (if closed_in socket c.closed then none else some socket)
    → Client.Messages.on_message c socket msg ≡ hears_all c (on_message r msg)
unfolding on_message send Client.Messages.on_message
on_message-refines c socket r msg a s h = ground arith

-- While the connection is not closed by its owner, every envelope that it hands on is confirmed
-- once, to its sender, and the confirmations have the order of the envelopes, whatever else is
-- sent, however often it connects again, and with any texts from the relay.
pub run-IsConfirmed :
    (encode : String → String) (parse : String → Option RelayMessage) (r : RelayConnection)
    (es : List Event)
    → All (λ e. e ≢ closed_by_user) es
    → r.ws ≢ none
    → IsConfirmed (run encode parse r es).0
unfolding run
run-IsConfirmed encode parse r [] n h = refl
run-IsConfirmed encode parse r (e ∷ es) (n, ns) h =
    let (outputs, r') = step encode parse r e in
    let (now, live) = IsConfirmed-step encode parse r e n h in
    IsConfirmed-append outputs (run encode parse r' es).0 now
      (run-IsConfirmed encode parse r' es ns live)
