-- ===== src/Client/Laws/Fanout.antt =====
-- Sending to all devices of a peer, and what the acknowledgements show.
use hwfa.Common.{
  ℕ, true, false, ◌⊎◌, Option, none, some, List, [], ◌∷◌, ◌++◌, map, ◌≡◌, ◌≢◌, refl, sym, ap, ◌∙◌,
  arith, String, ◌==◌, eq_iff, eq_refl, includes, All, Option-cases, Bool-cases, inl, inr,
  if◌then◌else◌,
}
use mathlib.Core.List.{append-nil, append_assoc}
use hwfa.Common.Dict.{Dict, get, set, get-set}
use hwfa.Models.{MessageStatus, Receipt, Envelope, deliver, ack, receipt, status, ScamVerdict}
use hwfa.Client.{CachedDevices, Client, Effect, sent, status_shown, effect}
use hwfa.Client.Messages.{
  Services, with_peer, cached_at, devices_for_peer, handle_ack, handle_status, on_message,
  delivered,
}
use hwfa.Client.Laws.Copies.{Copies}
use hwfa.Client.Events.{Event, message, answered, rejected, step, run, answer_at, continue}

abbrev HasSelf : String × CachedDevices → Type 0
HasSelf e = includes e.0 e.1.devices ≡ true

-- Every cached list of devices has the peer itself in it.
abbrev pub HasPeers : Client → Type 0
HasPeers c = All HasSelf c.peer_devices

get-HasSelf :
    (d : Dict CachedDevices) (peer : String) (e : CachedDevices)
    → All HasSelf d
    → get d peer ≡ some e
    → includes peer e.devices ≡ true
unfolding get
get-HasSelf [] peer e h g = cc
get-HasSelf ((k, x) ∷ d) peer e (own, h) g = elim (Bool-cases (k == peer)) [
  | inl b ↦
      let here : k ≡ peer = (eq_iff k peer).0 b in
      let same : x ≡ e = ground (arith, b, g) in rw (sym here, sym same) own
  | inr b ↦ get-HasSelf d peer e h (rw b at g)
]

HasSelf-set :
    (d : Dict CachedDevices) (peer : String) (e : CachedDevices)
    → All HasSelf d
    → includes peer e.devices ≡ true
    → All HasSelf (set d peer e)
unfolding set
HasSelf-set [] peer e h i = (i, tt)
HasSelf-set ((k, x) ∷ d) peer e (own, h) i = elim (Bool-cases (k == peer)) [
  | inl b ↦ let here : k ≡ peer = (eq_iff k peer).0 b in rw b (rw here i, h)
  | inr b ↦ rw b (own, HasSelf-set d peer e h i)
]

includes-with_peer :
    (peer : String) (list : Option (List String)) → includes peer (with_peer peer list) ≡ true
includes-with_peer peer none = ground (arith, eq_refl peer)
includes-with_peer peer (some list) = elim (Bool-cases (includes peer list)) [
  | inl e ↦ rw e e
  | inr e ↦ rw e (ground (arith, eq_refl peer))
]

cached_at-includes :
    (now : ℕ) (c : Client) (peer : String) (devices : List String)
    → HasPeers c
    → cached_at now (get c.peer_devices peer) ≡ some devices
    → includes peer devices ≡ true
cached_at-includes now c peer devices h e = elim (Option-cases (get c.peer_devices peer)) [
  | inl g ↦ ground (arith, e, g)
  | inr (entry, g) ↦ ground (arith, e, g, get-HasSelf c.peer_devices peer entry h g)
]

-- The list of devices that a message goes to has the peer itself in it, whether it comes from the
-- cache, from Discovery or from neither, if the lists in the cache have theirs; and those still
-- have theirs.
pub devices_for_peer_lem :
    (services : Services) (c : Client) (now : ℕ) (peer : String)
    → HasPeers c
    → let (devices, c') = devices_for_peer services c now peer in
      (includes peer devices ≡ true) × HasPeers c'
unfolding devices_for_peer
devices_for_peer_lem services c now peer h =
    elim (Option-cases (cached_at now (get c.peer_devices peer))) [
      | inr (devices, e) ↦ rw (e, devices_for_peer) (cached_at-includes now c peer devices h e, h)
      | inl e ↦
          let devices = with_peer peer (services.list_devices peer) in
          let fits = includes-with_peer peer (services.list_devices peer) in
          rw (e, devices_for_peer)
            (fits, HasSelf-set c.peer_devices peer (record { devices = devices; at = now }) h fits)
    ]

-- The status that a receipt stands for.
abbrev pub level_of : Receipt → MessageStatus
level_of Receipt.delivered = MessageStatus.delivered
level_of Receipt.read = MessageStatus.read

-- What the statuses say of this envelope, in order.
abbrev pub shown_for : String → String → List (String × Receipt) → List Effect
shown_for id ref [] = []
shown_for id ref ((e, r) ∷ rs) =
    let rest = shown_for id ref rs in if e == id then status_shown ref (level_of r) ∷ rest else rest

abbrev pub statuses : ℕ → List (String × Receipt) → List Event
statuses socket = map (λ s. message socket (status s.0 s.1))

-- A receipt for the envelope, and one for an envelope that is not known.
known_lem :
    (c : Client) (socket : ℕ) (id ref : String) (r : Receipt)
    → ref ≢ ""
    → get c.envelope_to_ref id ≡ some ref
    → on_message c socket (status id r) ≡ effect c (status_shown ref (level_of r))
unfolding on_message handle_status
known_lem c socket id ref Receipt.delivered n g = ground (arith, n, g, eq_iff ref "")
known_lem c socket id ref Receipt.read n g = ground (arith, n, g, eq_iff ref "")

unknown_lem :
    (c : Client) (socket : ℕ) (id : String) (r : Receipt)
    → get c.envelope_to_ref id ≡ none
    → on_message c socket (status id r) ≡ c
unfolding on_message handle_status
unknown_lem c socket id r g = ground (arith, g)

receipts_lem :
    (services : Services) (analyze : String → ScamVerdict) (c : Client) (socket : ℕ)
    (id ref : String) (known : Dict String) (rs : List (String × Receipt))
    → ref ≢ ""
    → c.envelope_to_ref ≡ set known id ref
    → All (λ s. (s.0 ≡ id) ⊎ ((s.0 ≢ id) × (get known s.0 ≡ none))) rs
    → (run services analyze c (statuses socket rs)).effects ≡ c.effects ++ shown_for id ref rs
unfolding run step
receipts_lem services analyze c socket id ref known [] n m h = sym (append-nil c.effects)
receipts_lem services analyze c socket id ref known ((e, r) ∷ rs) n m (inl p, hs) =
    let shown = status_shown ref (level_of r) in
    let own : get c.envelope_to_ref id ≡ some ref =
      ap (λ d. get d id) m ∙ get-set known id id ref ∙ ground (arith, eq_refl id) in
    let first : on_message c socket (status e r) ≡ effect c shown =
      ap (λ i. on_message c socket (status i r)) p ∙ known_lem c socket id ref r n own in
    let here : e == id ≡ true = ground (arith, p, eq_iff e id) in
    rw here (
      ap (λ x. (run services analyze x (statuses socket rs)).effects) first
      ∙ receipts_lem services analyze (effect c shown) socket id ref known rs n m hs
      ∙ append_assoc c.effects (shown ∷ []) (shown_for id ref rs))
receipts_lem services analyze c socket id ref known ((e, r) ∷ rs) n m (inr (ne, g), hs) =
    let there : e == id ≡ false = ground (arith, ne, eq_iff e id) in
    let absent : get c.envelope_to_ref e ≡ none =
      ap (λ d. get d e) m ∙ get-set known id e ref ∙ ground (arith, g, ne, eq_iff id e) in
    rw there (
      ap (λ x. (run services analyze x (statuses socket rs)).effects)
        (unknown_lem c socket e r absent)
      ∙ receipts_lem services analyze c socket id ref known rs n m hs)

-- The acknowledgement of a message with a reference shows it as sent. From then on, whatever receipts
-- come, for its envelope or for ones that have not been acknowledged, and in whatever order, each one
-- for its envelope shows its status for that reference, and the others show nothing.
pub ack_lem :
    (services : Services) (analyze : String → ScamVerdict) (c : Client) (socket at : ℕ)
    (id ref : String) (rs : List (String × Receipt))
    → ref ≢ ""
    → All (λ s. (s.0 ≡ id) ⊎ ((s.0 ≢ id) × (get c.envelope_to_ref s.0 ≡ none))) rs
    → (run services analyze c (message socket (ack id at (some ref)) ∷ statuses socket rs)).effects
      ≡ c.effects ++ status_shown ref MessageStatus.sent ∷ shown_for id ref rs
unfolding run step on_message handle_ack
ack_lem services analyze c socket at id ref rs n h =
    let shown = status_shown ref MessageStatus.sent in
    let acked =
      effect
        (record c {
          ref_to_envelope = set c.ref_to_envelope ref id;
          envelope_to_ref = set c.envelope_to_ref id ref;
        })
        shown in
    let first : on_message c socket (ack id at (some ref)) ≡ acked =
      ground (arith, n, eq_iff ref "") in
    ap (λ x. (run services analyze x (statuses socket rs)).effects) first
    ∙ receipts_lem services analyze acked socket id ref c.envelope_to_ref rs n refl h
    ∙ append_assoc c.effects (shown ∷ []) (shown_for id ref rs)

-- The delivery receipt goes out before the text is decrypted. If decrypting then throws, the sender
-- has been told that the message is delivered, but nothing is shown and nothing waits any more.
pub undecrypted_is_receipted :
    (services : Services) (analyze : String → ScamVerdict) (c : Client) (now socket : ℕ)
    (env : Envelope)
    → c.tasks ≡ []
    → c.closed ≡ []
    → let c' =
        run services analyze c (message socket (deliver env) ∷ answered now 0 rejected ∷ []) in
      (c'.effects
        ≡ c.effects
          ++ sent socket (receipt env.id Receipt.delivered env.sender_id env.sender_device) ∷ [])
      × (c'.tasks ≡ [])
unfolding run step on_message answer_at continue delivered
undecrypted_is_receipted services analyze c now socket env t k = (ground arith, ground arith)
