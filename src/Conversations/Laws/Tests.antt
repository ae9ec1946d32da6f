-- ===== src/Conversations/Laws/Tests.antt =====
-- Concrete conversations, on which the laws are used.
use hwfa.Common.{◌+◌, true, false, none, some, List, [], ◌∷◌, ◌++◌, ◌≡◌, refl, ne_of_eq_false}
use mathlib.Core.List.{Perm}
use hwfa.Common.Dict.{get, values}
use hwfa.Common.Sort.{IsDescending, sort_desc}
use hwfa.Models.{sent, delivered}
use hwfa.Wire.{
  Json, Codecs, CallSignal, ring, GroupPayload, TypingPayload, StatusPayload, MediaReference,
  MediaKeyMaterial,
}
use hwfa.Wire.Bodies.{build_group_body}
use hwfa.Conversations.{Effect, ChatMessage, Conversation, Store, init, conv_of, make, truthy}
use hwfa.Conversations.Receive.{receive, members_without}
use hwfa.Conversations.Edit.{mark_read, apply_status}
use hwfa.Conversations.Persist.{persisted, hydrate}
use hwfa.Conversations.Laws.Routing.{receive-build_group_body}
use hwfa.Conversations.Laws.Status.{Pointwise, SameButStatus, apply_status_monotone}
use hwfa.Conversations.Laws.Reading.{Receipted, mark_read_lem}
use hwfa.Conversations.Laws.Restart.{SameConversation, hydrate-persisted}
use hwfa.Conversations.Laws.Listing.{
  Event, received, sent as text_sent, opened, peer_found, run, run-IsCurrent,
}
use hwfa.Conversations.Laws.Current.{IsCurrent}

abbrev call_signal : CallSignal
call_signal = record { type = ring; call_id = "k"; video = none; sdp = none; candidate = none }

abbrev group_payload : GroupPayload
group_payload = record { gid = "g"; name = "us"; members = "al" ∷ "bob" ∷ []; text = "hi" }

abbrev typing_payload : TypingPayload
typing_payload = record { typing = true; gid = some "g" }

abbrev status_payload : StatusPayload
status_payload = record { id = "s"; text = "yo"; at = 10; expires_at = 90 }

abbrev material : MediaKeyMaterial
material = record {
  key_b64 = "k";
  iv_b64 = "i";
  mime = "image/png";
  size = 3;
  sha256_b64 = "h";
  name = none;
}

abbrev reference : MediaReference
reference = record { material = material; locator = "l" }

-- A format that knows one payload.
abbrev single : {A : Type 0} → A → Json A
single a = record { stringify = λ x. "{}"; parse = λ text. some a }

abbrev codecs : Codecs
codecs = record {
  call = single call_signal;
  group = single group_payload;
  typing = single typing_payload;
  status = single status_payload;
  media = single reference;
}

-- A message that we sent, and one that Bob sent.
abbrev ours : ChatMessage
ours = record (make init "hi" true 3).0 { client_ref = some "c1"; status = some sent }

abbrev theirs : ChatMessage
theirs = record (make init "yo" false 4).0 { envelope_id = some "e1" }

abbrev bob : Conversation
bob = record {
  peer_user_id = "bob";
  peer_phone = some "+1";
  messages = ours ∷ theirs ∷ [];
  unread = 1;
  last_at = 4;
  group = none;
  peer_identity_b64 = some "key";
}

abbrev store : Store
store = record init { convs = ("bob", bob) ∷ []; list_snapshot = bob ∷ []; counter = 2 }

abbrev events : List Event
events =
    received 8 "eve" "hello" 8 (some "e2") none
    ∷ text_sent 9 "bob" "bye"
    ∷ peer_found "cy" (some "+2")
    ∷ opened "bob"
    ∷ []

receive-build_group_body_example :
    let s' =
      receive codecs store
        (some "al")
        5
        "bob"
        (build_group_body codecs.group group_payload)
        5
        (some "e3")
        none in
    (conv : Conversation) × (m : ChatMessage) × (get s'.convs "g" ≡ some conv)
    × (conv.messages ≡ (conv_of store "g").messages ++ m ∷ [])
    × (m.text ≡ "hi")
    × (m.sender_id ≡ some "bob")
    × (m.mine ≡ false)
    × (conv.unread ≡ (conv_of store "g").unread + 1)
    × (conv.group
        ≡ some (record {
          name = "us";
          members = members_without (truthy (some "al")) group_payload.members;
        }))
    × (get s'.convs "bob" ≡ get store.convs "bob")
receive-build_group_body_example =
    receive-build_group_body codecs store (some "al") 5 "bob" 5 (some "e3") none group_payload "bob"
      refl (ne_of_eq_false "g" "bob" refl)

apply_status_monotone_example :
    Pointwise SameButStatus store.convs (apply_status store "c1" delivered).convs
apply_status_monotone_example = apply_status_monotone store "c1" delivered

mark_read_lem_example :
    let s' = mark_read store "bob" in
    (es : List Effect) × ((ms : List ChatMessage) × Receipted "bob" bob.messages es ms
      × (s'.effects ≡ store.effects ++ es)
      × (get s'.convs "bob" ≡ some (record bob { messages = ms; unread = 0 }))
      × (get s'.convs "eve" ≡ get store.convs "eve")
      × ((mark_read s' "bob").effects ≡ s'.effects))
unfolding get
mark_read_lem_example = mark_read_lem store "bob" "eve" bob refl (ne_of_eq_false "bob" "eve" refl)

hydrate-persisted_example :
    let s' = hydrate init (some (persisted store)) in
    Pointwise SameConversation store.convs s'.convs × (s'.counter ≡ store.counter)
hydrate-persisted_example = hydrate-persisted store (refl, tt, tt)

run-IsCurrent_example :
    let s' = run codecs (some "al") store events in
    IsCurrent s'
    × IsDescending (λ c. c.last_at) s'.list_snapshot
    × Perm s'.list_snapshot (values s'.convs)
unfolding sort_desc
run-IsCurrent_example =
    run-IsCurrent codecs (some "al") store events refl (tt, (tt, ((λ e. cc), (tt, tt))))
