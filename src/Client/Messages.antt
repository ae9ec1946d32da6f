-- ===== src/Client/Messages.antt =====
-- Messages over the relay (client.ts: sendText, devicesForPeer, ensureSession, handleDeliver,
-- handleAck, handleStatus, sendReadReceipt; relay.ts: the message listener). Nothing else happens
-- while `sendText` waits for its services.
use hwfa.Common.{
  ℕ, ◌-◌, Bool, false, ◌||◌, Option, none, some, List, [], ◌∷◌, String, ◌==◌, ltb, nat_eq, is_some,
  or_default, includes, if◌then◌else◌,
}
use hwfa.Common.Dict.{get, set}
use hwfa.Models.{
  CiphertextType, Submission, Envelope, MessageStatus, Receipt, RelayMessage, send, deliver, ack,
  receipt, status, register_push, ScamVerdict,
}
use hwfa.Client.{CachedDevices, Client, decrypting, sent, status_shown, text_shown, effect, wait}

pub record Bundle : Type 0 where
  pub device_id : ℕ
  pub identity_key_b64 : String

pub record EncryptedMessage : Type 0 where
  pub type : CiphertextType
  pub ciphertext_b64 : String

-- What Discovery and the crypto provider answer; `none` and `false` stand for a thrown error.
pub record Services : Type 0 where
  pub list_devices : String → Option (List String)
  pub fetch_bundle : String → Option Bundle
  pub establish_session : String → Bundle → Bool
  pub encrypt : String → ℕ → String → Option EncryptedMessage

-- `DEVICE_LIST_TTL_MS`.
abbrev pub device_list_ttl_ms : ℕ
device_list_ttl_ms = 300000

-- The list with the peer itself in it; that alone where the look-up fails.
abbrev pub with_peer : String → Option (List String) → List String
with_peer peer none = peer ∷ []
with_peer peer (some list) = if includes peer list then list else peer ∷ list

-- What the cache still holds.
abbrev pub cached_at : ℕ → Option CachedDevices → Option (List String)
cached_at now none = none
cached_at now (some e) = if ltb (now - e.at) device_list_ttl_ms then some e.devices else none

module _ (services : Services) where
  unfoldable pub devices_for_peer : Client → ℕ → String → List String × Client
  devices_for_peer c now peer = elim (cached_at now (get c.peer_devices peer)) [
    | some devices ↦ (devices, c)
    | none ↦
        let devices = with_peer peer (services.list_devices peer) in
        (
          devices,
          record c {
            peer_devices = set c.peer_devices peer (record { devices = devices; at = now });
          },
        )
  ]

  learn_identity : Client → String → Client
  learn_identity c peer = elim (services.fetch_bundle peer) [
    | none ↦ c
    | some bundle ↦ record c { peer_identity = set c.peer_identity peer bundle.identity_key_b64 }
  ]

  -- The peer's device, if there is a session.
  unfoldable pub ensure_session : Client → String → Option ℕ × Client
  unfolding learn_identity
  ensure_session c peer = elim (get c.peer_device peer) [
    | some known ↦
        (some known, if is_some (get c.peer_identity peer) then c else learn_identity c peer)
    | none ↦ elim (services.fetch_bundle peer) [
      | none ↦ (none, c)
      | some bundle ↦
          if services.establish_session peer bundle
          then (
            some bundle.device_id,
            record c {
              peer_device = set c.peer_device peer bundle.device_id;
              peer_identity = set c.peer_identity peer bundle.identity_key_b64;
            },
          )
          else (none, c)
    ]
  ]

  unfoldable pub submission : Client → ℕ → String → String → ℕ → EncryptedMessage → Submission
  submission c now me device peer_device enc = record {
    recipient_id = device;
    recipient_device = peer_device;
    sender_id = me;
    sender_device = c.device_id;
    type = enc.type;
    ciphertext = enc.ciphertext_b64;
    timestamp = now;
  }

  -- One turn of the loop: only the send to the peer's own id carries the reference.
  unfoldable pub send_to_device :
      Client → ℕ → ℕ → String → String → String → String → String → Client
  send_to_device c now socket me peer text ref device =
      let (session, c') = ensure_session c device in
      elim session [
        | none ↦ c'
        | some peer_device ↦ elim (services.encrypt device peer_device text) [
          | none ↦ c'
          | some enc ↦ effect c' (
              sent socket (
                send (submission c' now me device peer_device enc)
                  (if device == peer then some ref else none)))
        ]
      ]

  unfoldable pub send_all :
      Client → ℕ → ℕ → String → String → String → String → List String → Client
  send_all c now socket me peer text ref [] = c
  send_all c now socket me peer text ref (device ∷ devices) =
      send_all (if device == me then c else send_to_device c now socket me peer text ref device) now
        socket me peer text ref devices

  -- `sendText`; it throws if there is no socket or no account.
  unfoldable pub send_text : Client → ℕ → String → String → String → Client
  unfolding devices_for_peer
  send_text c now peer text ref = elim c.relay [
    | none ↦ c
    | some socket ↦ elim c.user_id [
      | none ↦ c
      | some me ↦
          let (devices, c') = devices_for_peer c now peer in
          send_all c' now socket me peer text ref devices
    ]
  ]

unfoldable pub send_read_receipt : Client → String → String → Client
send_read_receipt c peer envelope_id = elim c.relay [
  | none ↦ c
  | some socket ↦
      effect c (
        sent socket (receipt envelope_id Receipt.read peer (or_default (get c.peer_device peer) 1)))
]

-- What follows `crypto.decrypt` in `handleDeliver`: the plaintext, or nothing if it threw.
unfoldable pub delivered : (String → ScamVerdict) → Client → ℕ → Envelope → Option String → Client
delivered analyze c now env none = c
delivered analyze c now env (some text) =
    effect
      (if is_some (get c.peer_device env.sender_id)
        then c
        else record c { peer_device = set c.peer_device env.sender_id env.sender_device })
      (text_shown (record {
        from_user_id = env.sender_id;
        from_device = env.sender_device;
        text = text;
        received_at = now;
        envelope_id = env.id;
        verdict = analyze text;
      }))

-- A reference that is absent or empty is not followed.
unfoldable pub handle_ack : Client → Option String → String → Client
handle_ack c none envelope_id = c
handle_ack c (some ref) envelope_id =
    if ref == ""
    then c
    else effect
        (record c {
          ref_to_envelope = set c.ref_to_envelope ref envelope_id;
          envelope_to_ref = set c.envelope_to_ref envelope_id ref;
        })
        (status_shown ref MessageStatus.sent)

unfoldable pub handle_status : Client → String → MessageStatus → Client
handle_status c envelope_id new = elim (get c.envelope_to_ref envelope_id) [
  | none ↦ c
  | some ref ↦ if ref == "" then c else effect c (status_shown ref new)
]

abbrev pub status_of : Receipt → MessageStatus
status_of Receipt.delivered = MessageStatus.delivered
status_of Receipt.read = MessageStatus.read

abbrev pub closed_in : ℕ → List ℕ → Bool
closed_in socket [] = false
closed_in socket (s ∷ ss) = nat_eq socket s || closed_in socket ss

-- The `message` listener of a socket. The receipt goes out before the text is decrypted; on a
-- socket that the client has closed it throws.
unfoldable pub on_message : Client → ℕ → RelayMessage → Client
unfolding handle_ack handle_status
on_message c socket (deliver env) =
    if closed_in socket c.closed
    then wait c (decrypting env)
    else effect (wait c (decrypting env))
        (sent socket (receipt env.id Receipt.delivered env.sender_id env.sender_device))
on_message c socket (ack envelope_id at ref) = handle_ack c ref envelope_id
on_message c socket (status envelope_id s) = handle_status c envelope_id (status_of s)
on_message c socket (send s ref) = c
on_message c socket (receipt envelope_id s target device) = c
on_message c socket (register_push token) = c
