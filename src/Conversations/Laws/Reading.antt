-- ===== src/Conversations/Laws/Reading.antt =====
-- Opening a conversation: its receipts go out once.
use hwfa.Common.{
  Bool, true, false, not, ◌||◌, some, List, [], ◌∷◌, ◌++◌, map, ◌≡◌, ◌≢◌, ◌==◌, eq_iff, refl, ap,
  ◌∙◌, arith, String, is_some, find, nat_eq, eq_refl, none, Option-cases, ◌⊎◌, or_default,
  Bool-cases, inl, inr, if◌then◌else◌,
}
use mathlib.Core.List.{append-nil}
use hwfa.Common.Dict.{get, set, get-set}
use hwfa.Conversations.{ChatMessage, Conversation, Store, Effect, send_read_receipt}
use hwfa.Conversations.Edit.{needs_receipt, mark_message, receipts, mark_read}

needs_receipt_of_read_sent : (m : ChatMessage) → m.read_sent ≡ true → needs_receipt m ≡ false
unfolding needs_receipt
needs_receipt_of_read_sent m h = rw h (elim (Bool-cases m.mine) [ inl e ↦ rw e | inr e ↦ rw e ])

needs_receipt-mark_message : (m : ChatMessage) → needs_receipt (mark_message m) ≡ false
unfolding mark_message
needs_receipt-mark_message m = elim (Bool-cases (needs_receipt m)) [
  | inl e ↦ rw e (needs_receipt_of_read_sent (record m { read_sent = true }) refl)
  | inr e ↦ rw e e
]

receipts-mark_message :
    (peer : String) (ms : List ChatMessage) → receipts peer (map mark_message ms) ≡ []
unfolding receipts
receipts-mark_message peer [] = refl
receipts-mark_message peer (m ∷ ms) =
    rw (needs_receipt-mark_message m) (receipts-mark_message peer ms)

-- What `mark_read` does to the conversation.
abbrev marked : Conversation → Conversation
marked conv = record conv { messages = map mark_message conv.messages; unread = 0 }

abbrev changes : Conversation → Bool
changes conv = is_some (find needs_receipt conv.messages) || not (nat_eq conv.unread 0)

module _ (s : Store) (peer : String) (conv : Conversation) (e : get s.convs peer ≡ some conv) where
  convs-mark_read : (mark_read s peer).convs ≡ set s.convs peer (marked conv)
  unfolding mark_read
  convs-mark_read = elim (Bool-cases (changes conv)) [
    | inl b ↦ rw (e, b, mark_read)
    | inr b ↦ rw (e, b, mark_read)
  ]

  effects-mark_read : (mark_read s peer).effects ≡ s.effects ++ receipts peer conv.messages
  unfolding mark_read
  effects-mark_read = elim (Bool-cases (changes conv)) [
    | inl b ↦ rw (e, b, mark_read)
    | inr b ↦ rw (e, b, mark_read)
  ]

  get-mark_read :
      (j : String)
      → get (mark_read s peer).convs j ≡ (if peer == j then some (marked conv) else get s.convs j)
  get-mark_read j = rw convs-mark_read (get-set s.convs peer j (marked conv))

  get-mark_read_self : get (mark_read s peer).convs peer ≡ some (marked conv)
  get-mark_read_self = rw (get-mark_read peer) (rw (eq_refl peer))

-- Whom a receipt goes to: the member of a group who wrote the message, else the peer.
abbrev pub IsSender : String → ChatMessage → String → Type 0
IsSender peer m to = (m.sender_id ≡ some to) ⊎ ((m.sender_id ≡ none) × (to ≡ peer))

-- What becomes of the messages, and the receipts that are asked for on the way: one, in order, for
-- each message that is not ours, has no receipt yet, and has an envelope; that message is marked, and
-- the others stay.
pub data Receipted (peer : String)
    : List ChatMessage → List Effect → List ChatMessage → Type 0 where
  no_more : Receipted peer [] [] []
  answered :
      (m : ChatMessage) (envelope_id to : String) {ms ms' : List ChatMessage} {es : List Effect}
      → m.mine ≡ false
      → m.read_sent ≡ false
      → m.envelope_id ≡ some envelope_id
      → envelope_id ≢ ""
      → IsSender peer m to
      → Receipted peer ms es ms'
      → Receipted peer
          (m ∷ ms)
          (send_read_receipt to envelope_id ∷ es)
          (record m { read_sent = true } ∷ ms')
  passed :
      (m : ChatMessage) {ms ms' : List ChatMessage} {es : List Effect}
      → ((m.mine ≡ true) ⊎ (m.read_sent ≡ true))
        ⊎ ((m.envelope_id ≡ none) ⊎ (m.envelope_id ≡ some ""))
      → Receipted peer ms es ms'
      → Receipted peer (m ∷ ms) es (m ∷ ms')

or_default-IsSender :
    (peer : String) (m : ChatMessage) → IsSender peer m (or_default m.sender_id peer)
or_default-IsSender peer m = elim (Option-cases m.sender_id) [
  | inl e ↦ inr (e, rw e refl)
  | inr (to, e) ↦ inl (rw e refl)
]

-- A message that wants a receipt has an envelope.
wants_lem :
    (m : ChatMessage)
    → needs_receipt m ≡ true
    → (m.mine ≡ false)
      × (m.read_sent ≡ false)
      × ((envelope_id : String) × (m.envelope_id ≡ some envelope_id) × (envelope_id ≢ ""))
unfolding needs_receipt
wants_lem m h = elim (Option-cases m.envelope_id) [
  | inl e ↦ absurd (ground (arith, e, h))
  | inr (i, e) ↦ (ground arith, ground arith, (i, e, ground (arith, e, h, eq_iff i "")))
]

wants_none_lem :
    (m : ChatMessage)
    → needs_receipt m ≡ false
    → ((m.mine ≡ true) ⊎ (m.read_sent ≡ true))
      ⊎ ((m.envelope_id ≡ none) ⊎ (m.envelope_id ≡ some ""))
unfolding needs_receipt
wants_none_lem m h = elim (Bool-cases m.mine) [
  | inl e ↦ inl (inl e)
  | inr e ↦ elim (Bool-cases m.read_sent) [
    | inl f ↦ inl (inr f)
    | inr f ↦ elim (Option-cases m.envelope_id) [
      | inl g ↦ inr (inl g)
      | inr (i, g) ↦
          let empty : i ≡ "" = ground (arith, g, h, e, f, eq_iff i "") in
          inr (inr (g ∙ ap some empty))
    ]
  ]
]

receipts-Receipted :
    (peer : String) (ms : List ChatMessage)
    → Receipted peer ms (receipts peer ms) (map mark_message ms)
unfolding receipts mark_message
receipts-Receipted peer [] = no_more
receipts-Receipted peer (m ∷ ms) = elim (Bool-cases (needs_receipt m)) [
  | inl e ↦
      let (mine, read, (i, f, ne)) = wants_lem m e in
      let envelope : or_default m.envelope_id "" ≡ i = rw f refl in
      rw (e, envelope)
        (answered m i (or_default m.sender_id peer) mine read f ne (or_default-IsSender peer m)
          (receipts-Receipted peer ms))
  | inr e ↦ rw e (passed m (wants_none_lem m e) (receipts-Receipted peer ms))
]

-- Opening a conversation that is there asks the client for one receipt for each message that is not
-- ours, has no receipt yet and has an envelope, in order, to its sender, and marks those messages; it
-- leaves nothing unread, the rest of the conversation as it was, and touches no other conversation.
-- Opening it again asks for nothing. (Whether the client is connected makes no difference.)
pub mark_read_lem :
    (s : Store) (peer j : String) (conv : Conversation)
    → get s.convs peer ≡ some conv
    → peer ≢ j
    → let s' = mark_read s peer in
      (es : List Effect) × ((ms : List ChatMessage) × Receipted peer conv.messages es ms
        × (s'.effects ≡ s.effects ++ es)
        × (get s'.convs peer ≡ some (record conv { messages = ms; unread = 0 }))
        × (get s'.convs j ≡ get s.convs j)
        × ((mark_read s' peer).effects ≡ s'.effects))
mark_read_lem s peer j conv e n = (
  receipts peer conv.messages,
  (
    map mark_message conv.messages,
    receipts-Receipted peer conv.messages,
    effects-mark_read s peer conv e,
    get-mark_read_self s peer conv e,
    ground (arith, get-mark_read s peer conv e j, eq_iff peer j),
    effects-mark_read (mark_read s peer) peer (marked conv) (get-mark_read_self s peer conv e)
        ∙ ap (λ r. (mark_read s peer).effects ++ r) (receipts-mark_message peer conv.messages)
        ∙ append-nil _,
  ),
)
