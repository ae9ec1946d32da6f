-- ===== src/Conversations/Laws/Restart.antt =====
-- What a restart brings back: the store is written, and read into an empty one.
use hwfa.Common.{
  ℕ, false, Option, none, some, List, [], ◌∷◌, ◌++◌, map, ◌≡◌, ◌≢◌, refl, ap, sym, ◌∙◌, arith,
  String, ◌==◌, eq_iff, eq_refl, All, All-append, Bool-cases, inl, inr,
}
use mathlib.Core.Path.{subst}
use mathlib.Core.List.{append-nil, append_assoc}
use hwfa.Common.Dict.{Dict, get, set, values}
use hwfa.Models.{ScamVerdict}
use hwfa.Conversations.{
  ChatMessage, Conversation, PersistedState, Store, init, conv_of, messages_of, message_id, make,
  truthy,
}
use hwfa.Conversations.Receive.{receive_plain}
use hwfa.Conversations.Laws.Status.{Pointwise}
use hwfa.Conversations.Persist.{
  strip_message, strip, restored, merged, persisted, hydrate_conv, hydrate_convs, hydrate,
}

-- Every conversation stands under its own id, and no id stands twice.
abbrev pub IsKeyed : Dict Conversation → Type 0
IsKeyed [] = Unit
IsKeyed ((k, c) ∷ d) = (k ≡ c.peer_user_id) × All (λ e. e.0 ≢ k) d × IsKeyed d

-- What a restart makes of the conversations.
abbrev reloaded : Dict Conversation → Dict Conversation
reloaded = map (λ e. (e.0, restored (strip e.1)))

get_of_absent : (d : Dict Conversation) (k : String) → All (λ e. e.0 ≢ k) d → get d k ≡ none
unfolding get
get_of_absent [] k h = refl
get_of_absent ((j, c) ∷ d) k (n, h) = ground (arith, eq_iff j k, get_of_absent d k h)

set_of_absent :
    (d : Dict Conversation) (k : String) (c : Conversation)
    → All (λ e. e.0 ≢ k) d
    → set d k c ≡ d ++ (k, c) ∷ []
unfolding set
set_of_absent [] k c h = refl
set_of_absent ((j, x) ∷ d) k c (n, h) = elim (Bool-cases (j == k)) [
  | inl e ↦ absurd (n ((eq_iff j k).0 e))
  | inr e ↦ rw e (ap (λ r. (j, x) ∷ r) (set_of_absent d k c h))
]

-- No key of the one is a key of the other.
abbrev Apart : Dict Conversation → Dict Conversation → Type 0
Apart acc d = All (λ e. All (λ a. a.0 ≢ e.0) acc) d

hydrate_conv_of_absent :
    (acc : Dict Conversation) (j : String) (c : Conversation)
    → j ≡ c.peer_user_id
    → All (λ e. e.0 ≢ j) acc
    → hydrate_conv acc (strip c) ≡ acc ++ (j, restored (strip c)) ∷ []
unfolding hydrate_conv
hydrate_conv_of_absent acc j c own a =
    let a' = subst (λ k. All (λ e. e.0 ≢ k) acc) own a in
    rw (get_of_absent acc c.peer_user_id a', hydrate_conv)
      (set_of_absent acc c.peer_user_id (restored (strip c)) a'
        ∙ ap (λ k. acc ++ (k, restored (strip c)) ∷ []) (sym own))

Apart-append :
    (acc d : Dict Conversation) (j : String) (c : Conversation)
    → Apart acc d
    → All (λ e. e.0 ≢ j) d
    → Apart (acc ++ (j, c) ∷ []) d
Apart-append acc [] j c a o = tt
Apart-append acc ((k, x) ∷ d) j c (a, as') (n, o) = (
  All-append (λ e. e.0 ≢ k) acc ((j, c) ∷ []) a ((λ p. n (sym p)), tt),
  Apart-append acc d j c as' o,
)

hydrate_convs-strip :
    (acc d : Dict Conversation)
    → IsKeyed d
    → Apart acc d
    → hydrate_convs acc (map strip (values d)) ≡ acc ++ reloaded d
unfolding hydrate_convs
hydrate_convs-strip acc [] k a = sym (append-nil acc)
hydrate_convs-strip acc ((j, c) ∷ d) (own, others, k) (a, rest) =
    ap (λ r. hydrate_convs r (map strip (values d))) (hydrate_conv_of_absent acc j c own a)
    ∙ (hydrate_convs-strip (acc ++ (j, restored (strip c)) ∷ []) d k
          (Apart-append acc d j (restored (strip c)) rest others)
        ∙ append_assoc acc ((j, restored (strip c)) ∷ []) (reloaded d))

Apart-nil : (d : Dict Conversation) → Apart [] d
Apart-nil [] = tt
Apart-nil (e ∷ d) = (tt, Apart-nil d)

-- The message but for its decrypted preview and the state of fetching that.
abbrev pub SameMessage : ChatMessage → ChatMessage → Type 0
SameMessage m m' = m' ≡ record m { media_uri = none; media_state = none }

-- The same key and conversation, but for its group and the identity key of its peer.
abbrev pub SameConversation : String × Conversation → String × Conversation → Type 0
SameConversation (k, c) (k', c') =
    (k' ≡ k)
    × (c'.peer_user_id ≡ c.peer_user_id)
    × (c'.peer_phone ≡ c.peer_phone)
    × Pointwise SameMessage c.messages c'.messages
    × (c'.unread ≡ c.unread)
    × (c'.last_at ≡ c.last_at)
    × (c'.group ≡ none)
    × (c'.peer_identity_b64 ≡ none)

stripped-SameMessage : (ms : List ChatMessage) → Pointwise SameMessage ms (map strip_message ms)
stripped-SameMessage [] = tt
stripped-SameMessage (m ∷ ms) = (refl, stripped-SameMessage ms)

reloaded-SameConversation : (d : Dict Conversation) → Pointwise SameConversation d (reloaded d)
reloaded-SameConversation [] = tt
reloaded-SameConversation ((k, c) ∷ d) = (
  (refl, refl, refl, stripped-SameMessage c.messages, refl, refl, refl, refl),
  reloaded-SameConversation d,
)

-- A store that is written and read into an empty one has the same conversations, in the same
-- order, under the same keys: each with its messages but for the decrypted previews and their
-- fetching state, its phone, its unread count and its time; and the same counter. What is not
-- brought back is the group of a conversation and the peer's identity key: every conversation comes
-- back without them.
pub hydrate-persisted :
    (s : Store)
    → IsKeyed s.convs
    → let s' = hydrate init (some (persisted s)) in
      Pointwise SameConversation s.convs s'.convs × (s'.counter ≡ s.counter)
unfolding hydrate persisted
hydrate-persisted s k =
    let same = hydrate_convs-strip [] s.convs k (Apart-nil s.convs) in
    (
      subst (λ d. Pointwise SameConversation s.convs d) (sym same)
          (reloaded-SameConversation s.convs),
      omega arith,
    )

get_single : (k : String) (c : Conversation) → get ((k, c) ∷ []) k ≡ some c
unfolding get
get_single k c = rw (eq_refl k)

set_single : (k : String) (c x : Conversation) → set ((k, c) ∷ []) k x ≡ (k, x) ∷ []
unfolding set
set_single k c x = rw (eq_refl k)

hydrate_conv_of_present :
    (c x : Conversation)
    → hydrate_conv ((c.peer_user_id, x) ∷ []) c ≡ (c.peer_user_id, merged x c) ∷ []
unfolding hydrate_conv
hydrate_conv_of_present c x =
    rw (get_single c.peer_user_id x, hydrate_conv) (set_single c.peer_user_id x (merged x c))

messages_of_single :
    (s : Store) (k : String) (c : Conversation)
    → s.convs ≡ (k, c) ∷ []
    → messages_of s k ≡ c.messages
unfolding messages_of get
messages_of_single s k c e = rw (e, messages_of) (rw (eq_refl k))

-- A message that arrives before the stored state has been read takes the id `m0`. If the stored
-- conversation with its sender has a message `m0`, as it has when that conversation was the first,
-- then afterwards two messages of the one conversation have the same id.
pub early_message_collides :
    (at : ℕ) (text : String) (envelope_id : Option String) (verdict : Option ScamVerdict)
    (counter : ℕ) (c : Conversation) (m : ChatMessage) (ms : List ChatMessage)
    → c.messages ≡ m ∷ ms
    → m.id ≡ message_id 0
    → let stored : PersistedState = record { v = 1; counter = counter; conversations = c ∷ [] } in
      let s =
        hydrate (receive_plain init c.peer_user_id text at envelope_id verdict) (some stored) in
      (new : ChatMessage) × (messages_of s c.peer_user_id ≡ m ∷ ms ++ new ∷ []) × (new.id ≡ m.id)
unfolding hydrate hydrate_convs receive_plain conv_of get set make
early_message_collides at text envelope_id verdict counter c m ms f g =
    let new = record (make init text false at).0 {
      envelope_id = truthy envelope_id;
      verdict = verdict;
    } in
    let early = receive_plain init c.peer_user_id text at envelope_id verdict in
    let stored : PersistedState = record { v = 1; counter = counter; conversations = c ∷ [] } in
    let x = record (conv_of init c.peer_user_id) {
      messages = new ∷ [];
      unread = 1;
      last_at = at;
    } in
    (
      new,
      messages_of_single (hydrate early (some stored)) c.peer_user_id (merged x c)
            (hydrate_conv_of_present c x)
          ∙ ap (λ r. r ++ new ∷ []) f,
      sym g,
    )
