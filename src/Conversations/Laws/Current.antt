-- ===== src/Conversations/Laws/Current.antt =====
-- The list of the conversation store after each of its operations.
use hwfa.Common.{
  ℕ, Bool, true, not, ◌&&◌, Option, none, some, List, [], ◌∷◌, map, nat_eq, sym, ◌∙◌, ◌≡◌, ◌≢◌,
  refl, ap, arith, String, is_some, same_text, find, Option-cases, Bool-cases, inl, inr,
}
use hwfa.Common.Dict.{get, set, values, set-get}
use hwfa.Common.Sort.{sort_desc}
use hwfa.Models.{MessageStatus, ScamVerdict}
use hwfa.Wire.{Codecs, MediaReference}
use hwfa.Conversations.{
  ChatMessage, Conversation, PersistedState, Store, truthy, conv_of, loading, is_image_mime,
  find_message,
}
use hwfa.Conversations.Receive.{
  receive, receive_media, receive_typing_payload, receive_group, receive_status_payload,
  receive_plain,
}
use hwfa.Conversations.Outbound.{send, send_typing, send_media}
use hwfa.Conversations.Attachments.{
  load_if, load_all, load_media, download_media, save_media, write_media,
}
use hwfa.Conversations.Edit.{
  patch, map_message, apply_status, mark_read, set_peer_identity, ensure_peer, needs_receipt,
  mark_message,
}
use hwfa.Conversations.Persist.{hydrate}

-- The list is the conversations, most recent first.
abbrev pub IsCurrent : Store → Type 0
IsCurrent s = s.list_snapshot ≡ sort_desc (λ c. c.last_at) (values s.convs)

pub patch-IsCurrent :
    (s : Store) (peer id : String) (f : ChatMessage → ChatMessage)
    → IsCurrent s
    → IsCurrent (patch s peer id f)
unfolding patch
patch-IsCurrent s peer id f h = ground arith

pub map_message-IsCurrent :
    (s : Store) (peer id : String) (f : ChatMessage → ChatMessage)
    → IsCurrent s
    → IsCurrent (map_message s peer id f)
unfolding map_message
map_message-IsCurrent s peer id f h = ground arith

pub apply_status-IsCurrent :
    (s : Store) (ref : String) (status : MessageStatus)
    → IsCurrent s
    → IsCurrent (apply_status s ref status)
unfolding apply_status
apply_status-IsCurrent s ref status h = ground arith

receive_media-IsCurrent :
    (s : Store) (peer : String) (at : ℕ) (id : Option String) (ref : MediaReference)
    → IsCurrent (receive_media s peer at id ref)
unfolding receive_media
receive_media-IsCurrent s peer at id ref =
    ground (
      arith,
      λ (t : Store) (i : String) (f : ChatMessage → ChatMessage). patch-IsCurrent t peer i f,
    )

pub receive-IsCurrent :
    (codecs : Codecs) (s : Store) (me : Option String) (now : ℕ) (peer text : String) (at : ℕ)
    (id : Option String) (verdict : Option ScamVerdict)
    → IsCurrent s
    → IsCurrent (receive codecs s me now peer text at id verdict)
unfolding receive receive_typing_payload receive_group receive_status_payload receive_plain
receive-IsCurrent codecs s me now peer text at id verdict h = grind (arith, receive_media-IsCurrent)

load_if-IsCurrent :
    (wanted : MediaReference → Bool) (s : Store) (peer : String) (m : ChatMessage)
    → IsCurrent s
    → IsCurrent (load_if wanted s peer m)
unfolding load_if load_media
load_if-IsCurrent wanted s peer m h =
    ground (arith, patch-IsCurrent s peer m.id (λ x. record x { media_state = some loading }) h)

pub load_all-IsCurrent :
    (s : Store) (peer : String) (ms : List ChatMessage)
    → IsCurrent s
    → IsCurrent (load_all s peer ms)
unfolding load_all
load_all-IsCurrent s peer [] h = h
load_all-IsCurrent s peer (m ∷ ms) h =
    load_all-IsCurrent (load_if (λ ref. is_image_mime ref.mime) s peer m) peer ms
      (load_if-IsCurrent (λ ref. is_image_mime ref.mime) s peer m h)

pub send-IsCurrent :
    (codecs : Codecs) (s : Store) (me : Option String) (at : ℕ) (peer text : String)
    → IsCurrent (send codecs s me at peer text)
unfolding send
send-IsCurrent codecs s me at peer text = ground arith

map-mark_message : (ms : List ChatMessage) → find needs_receipt ms ≡ none → map mark_message ms ≡ ms
unfolding mark_message
map-mark_message [] h = refl
map-mark_message (m ∷ ms) h = elim (Bool-cases (needs_receipt m)) [
  | inl e ↦ ground (arith, e, h)
  | inr e ↦ rw e (ap (λ r. m ∷ r) (map-mark_message ms (ground (arith, e, h))))
]

-- Opening a conversation with nothing unread changes nothing in it.
marked_same :
    (s : Store) (peer : String) (conv : Conversation)
    → get s.convs peer ≡ some conv
    → find needs_receipt conv.messages ≡ none
    → conv.unread ≡ 0
    → set s.convs peer (record conv { messages = map mark_message conv.messages; unread = 0 })
      ≡ s.convs
marked_same s peer conv e h u =
    rw (map-mark_message conv.messages h, sym u) (set-get s.convs peer conv e)

pub mark_read-IsCurrent : (s : Store) (peer : String) → IsCurrent s → IsCurrent (mark_read s peer)
unfolding mark_read
mark_read-IsCurrent s peer h = elim (Option-cases (get s.convs peer)) [
  | inl e ↦ rw (e, mark_read) h
  | inr (conv, e) ↦ elim (Option-cases (find needs_receipt conv.messages)) [
    | inr (m, f) ↦ rw (e, f, mark_read)
    | inl f ↦ elim (Bool-cases (nat_eq conv.unread 0)) [
      | inr z ↦ rw (e, f, z, mark_read)
      | inl z ↦
          rw (e, f, z, mark_read)
            (h
              ∙ ap (λ d. sort_desc (λ c. c.last_at) (values d))
                  (sym (marked_same s peer conv e f (ground (arith, z)))))
    ]
  ]
]

pub send_media-IsCurrent :
    (codecs : Codecs) (s : Store) (at : ℕ) (peer mime : String) (name : Option String) (size : ℕ)
    (uri : String)
    → IsCurrent (send_media codecs s at peer mime name size uri)
unfolding send_media
send_media-IsCurrent codecs s at peer mime name size uri = refl

pub send_typing-IsCurrent :
    (codecs : Codecs) (s : Store) (me : Option String) (id : String) (typing : Bool)
    → IsCurrent s
    → IsCurrent (send_typing codecs s me id typing)
unfolding send_typing
send_typing-IsCurrent codecs s me id typing h = ground arith

pub save_media-IsCurrent :
    (s : Store) (peer id : String) → IsCurrent s → IsCurrent (save_media s peer id)
unfolding save_media write_media load_media
save_media-IsCurrent s peer id h =
    ground (arith, patch-IsCurrent s peer id (λ x. record x { media_state = some loading }) h)

pub download_media-IsCurrent :
    (s : Store) (peer id : String) → IsCurrent s → IsCurrent (download_media s peer id)
unfolding download_media
download_media-IsCurrent s peer id h = elim (Option-cases (find_message s peer id)) [
  | inl e ↦ rw (e, download_media) h
  | inr (m, e) ↦ rw (e, download_media) (load_if-IsCurrent (λ _. true) s peer m h)
]

pub set_peer_identity-IsCurrent :
    (s : Store) (peer identity : String)
    → IsCurrent s
    → IsCurrent (set_peer_identity s peer identity)
unfolding set_peer_identity
set_peer_identity-IsCurrent s peer identity h = ground arith

pub ensure_peer-IsCurrent :
    (s : Store) (peer : String) (phone : Option String)
    → truthy phone ≢ none
    → IsCurrent s
    → IsCurrent (ensure_peer s peer phone)
unfolding ensure_peer conv_of
ensure_peer-IsCurrent s peer phone n h = elim (Option-cases (get s.convs peer)) [
  | inl e ↦ ground (arith, e, n)
  | inr (conv, e) ↦
      elim (Bool-cases (is_some (truthy phone) && not (same_text conv.peer_phone phone))) [
        | inl b ↦ rw (e, b, ensure_peer)
        | inr b ↦
            rw (e, b, ensure_peer)
              (h
                ∙ ap (λ d. sort_desc (λ c. c.last_at) (values d))
                    (sym (set-get s.convs peer conv e)))
      ]
]

pub hydrate-IsCurrent :
    (s : Store) (stored : Option PersistedState) → IsCurrent s → IsCurrent (hydrate s stored)
unfolding hydrate
hydrate-IsCurrent s none h = h
hydrate-IsCurrent s (some stored) h = refl
