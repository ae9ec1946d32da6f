-- ===== src/Conversations/Receive.antt =====
-- Inbound texts (conversations.ts: receive, ensureGroup): each kind of body goes to its place.
use hwfa.Common.{
  ℕ, ◌+◌, false, not, Option, none, some, List, String, ◌==◌, or_default, filter, if◌then◌else◌,
}
use hwfa.Common.Dict.{get}
use hwfa.Models.{ScamVerdict}
use hwfa.Wire.{Codecs, GroupPayload, TypingPayload, StatusPayload, MediaReference}
use hwfa.Wire.Bodies.{
  is_call_body, parse_call_body, is_group_body, parse_group_body, is_typing_body, parse_typing_body,
  is_status_body, parse_status_body, parse_media_body,
}
use hwfa.Statuses.{receive_status}
use hwfa.Typing.{receive_typing}
use hwfa.Conversations.Attachments.{load_media}
use hwfa.Conversations.{
  Conversation, Store, loading, route_call_signal, truthy, is_image_mime, media_label, conv_of,
  make, effect, append_message,
}

abbrev pub members_without : Option String → List String → List String
members_without none members = members
members_without (some me) members = filter (λ m. not (m == me)) members

-- `ensureGroup`: the thread of the group, with the payload's name and everybody else in it.
unfoldable pub group_conv : Store → Option String → GroupPayload → Conversation
group_conv s me payload = record (conv_of s payload.gid) {
  group =
      some (record { name = payload.name; members = members_without (truthy me) payload.members });
}

unfoldable pub receive_typing_payload : Store → String → ℕ → TypingPayload → Store
receive_typing_payload s peer now payload = record s {
  typing = receive_typing s.typing now (or_default payload.gid peer) peer payload.typing;
}

unfoldable pub receive_group :
    Store → Option String → String → ℕ → Option String → Option ScamVerdict → GroupPayload → Store
unfolding group_conv make append_message
receive_group s me peer at envelope_id verdict payload =
    let conv = group_conv s me payload in
    let (message, s') = make s payload.text false at in
    append_message s' payload.gid conv
      (record message {
        sender_id = some peer;
        envelope_id = truthy envelope_id;
        verdict = verdict;
      })
      (conv.unread + 1) at

-- The sender's phone, where the conversation knows it.
abbrev pub phone_of : Store → String → Option String
phone_of s peer = elim (get s.convs peer) [ none ↦ none | some c ↦ c.peer_phone ]

unfoldable pub receive_status_payload : Store → String → ℕ → StatusPayload → Store
receive_status_payload s peer now payload = record s {
  statuses = receive_status s.statuses now peer payload (phone_of s peer);
}

unfoldable pub receive_media : Store → String → ℕ → Option String → MediaReference → Store
unfolding media_label make append_message load_media
receive_media s peer at envelope_id ref =
    let conv = conv_of s peer in
    let (message, s') = make s (media_label ref.mime ref.name) false at in
    let image = is_image_mime ref.mime in
    let s'' =
      append_message s' peer conv
        (record message {
          envelope_id = truthy envelope_id;
          media = some ref;
          media_mime = some ref.mime;
          media_name = ref.name;
          media_size = some ref.size;
          media_state = if image then some loading else none;
        })
        (conv.unread + 1) at in
    if image then load_media s'' peer message.id ref else s''

unfoldable pub receive_plain :
    Store → String → String → ℕ → Option String → Option ScamVerdict → Store
unfolding make append_message
receive_plain s peer text at envelope_id verdict =
    let conv = conv_of s peer in
    let (message, s') = make s text false at in
    append_message s' peer conv
      (record message { envelope_id = truthy envelope_id; verdict = verdict }) (conv.unread + 1) at

module _ (codecs : Codecs) where
  -- `at` is when the client received the text, `now` the clock; they are the same reading or later.
  unfoldable pub receive :
      Store → Option String → ℕ → String → String → ℕ → Option String → Option ScamVerdict → Store
  receive s me now peer text at envelope_id verdict =
      if is_typing_body text
      then (elim (parse_typing_body codecs.typing text) [
        | none ↦ s
        | some p ↦ receive_typing_payload s peer now p
      ])
      else if is_call_body text
      then (elim (parse_call_body codecs.call text) [
        | none ↦ s
        | some signal ↦ effect s (route_call_signal peer signal)
      ])
      else if is_group_body text
      then (elim (parse_group_body codecs.group text) [
        | none ↦ s
        | some p ↦ receive_group s me peer at envelope_id verdict p
      ])
      else if is_status_body text
      then (elim (parse_status_body codecs.status text) [
        | none ↦ s
        | some p ↦ receive_status_payload s peer now p
      ])
      else (elim (parse_media_body codecs.media text) [
        | none ↦ receive_plain s peer text at envelope_id verdict
        | some ref ↦ receive_media s peer at envelope_id ref
      ])
