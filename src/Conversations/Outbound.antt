-- ===== src/Conversations/Outbound.antt =====
-- Outbound messages (conversations.ts: send, createGroup, sendGroup, sendTyping, sendMedia).
-- `me` is `getClient().accountId`. A fresh group id and a `data:` URI are arguments.
use hwfa.Common.{
  ℕ, Bool, true, not, Option, none, some, List, [], ◌∷◌, ◌++◌, map, String, filter, same_text,
  unique_from, if◌then◌else◌,
}
use hwfa.Common.Text.{◌+++◌}
use hwfa.Common.Dict.{get}
use hwfa.Common.Digits.{to_text}
use hwfa.Models.{sending}
use hwfa.Wire.{Codecs, GroupPayload, MediaReference}
use hwfa.Wire.Bodies.{build_group_body, build_typing_body, build_media_body}
use hwfa.Conversations.{
  GroupInfo, Conversation, Store, ready, error, Effect, send_text, upload, truthy, is_image_mime,
  media_label, conv_of, put, make, rebuild, emit, effect, append_message,
}
use hwfa.Conversations.Edit.{patch}

-- `c${this.counter}-${at.toString(36)}`.
abbrev pub client_ref_of : ℕ → ℕ → String
client_ref_of counter at = "c" +++ to_text 10 counter +++ "-" +++ to_text 36 at

abbrev pub others : Option String → List String → List String
others me members = filter (λ m. not (same_text (some m) me)) members

abbrev to_all : List String → String → List Effect
to_all members body = map (λ m. send_text m body none) members

-- The members with us among them, each once.
abbrev pub roster : Option String → List String → List String
roster none members = members
roster (some me) members = unique_from [] (members ++ me ∷ [])

unfoldable pub create_group : Store → ℕ → String → String → List String → Store
unfolding conv_of put rebuild emit
create_group s now gid name members = emit (
    rebuild (
      put s gid (record (conv_of s gid) {
        group = some (record { name = name; members = members });
        last_at = now;
      })))

module _ (codecs : Codecs) where
  unfoldable pub send_group :
      Store → Option String → ℕ → String → Conversation → GroupInfo → String → Store
  unfolding make append_message
  send_group s me at key conv group text =
      let (message, s') = make s text true at in
      let s'' = append_message s' key conv message conv.unread at in
      let payload : GroupPayload = record {
        gid = conv.peer_user_id;
        name = group.name;
        members = roster (truthy me) group.members;
        text = text;
      } in
      record s'' {
        effects =
            s''.effects ++ to_all (others me group.members) (build_group_body codecs.group payload);
      }

  unfoldable pub send : Store → Option String → ℕ → String → String → Store
  unfolding send_group make append_message
  send s me at peer text =
      let conv = conv_of s peer in
      elim conv.group [
        | some group ↦ send_group s me at peer conv group text
        | none ↦
            let (message, s') = make s text true at in
            let ref = client_ref_of s'.counter at in
            effect
              (append_message s' peer conv
                (record message { client_ref = some ref; status = some sending }) conv.unread at)
              (send_text peer text (some ref))
      ]

  -- A thread without messages gets no signal.
  unfoldable pub send_typing : Store → Option String → String → Bool → Store
  send_typing s me id typing = elim (get s.convs id) [
    | none ↦ s
    | some conv ↦ elim conv.messages [
      | [] ↦ s
      | _ ∷ _ ↦ elim conv.group [
        | some group ↦ record s {
          effects =
              s.effects
              ++ to_all (others me group.members)
                  (build_typing_body codecs.typing (record { typing = typing; gid = some id }));
        }
        | none ↦ effect s (
            send_text id (build_typing_body codecs.typing (record { typing = typing; gid = none }))
              none)
      ]
    ]
  ]

  -- `sendMedia` up to the upload: an image shows at once, from the local bytes.
  unfoldable pub send_media : Store → ℕ → String → String → Option String → ℕ → String → Store
  unfolding media_label is_image_mime make append_message
  send_media s at peer mime name size uri =
      let conv = conv_of s peer in
      let (message, s') = make s (media_label mime name) true at in
      let image = is_image_mime mime in
      effect
        (append_message s' peer conv
          (record message {
            client_ref = some (client_ref_of s'.counter at);
            status = some sending;
            media_mime = some mime;
            media_name = name;
            media_size = some size;
            media_uri = if image then some uri else none;
            media_state = if image then some ready else none;
          })
          conv.unread at)
        (upload peer message.id)

  -- The upload is done: its reference goes into the message and to the peer.
  unfoldable pub media_uploaded : Store → String → String → String → MediaReference → Store
  unfolding patch
  media_uploaded s peer id ref media =
      effect (patch s peer id (λ m. record m { media = some media }))
        (send_text peer (build_media_body codecs.media media.material media.locator) (some ref))

unfoldable pub upload_failed : Store → String → String → Store
unfolding patch
upload_failed s peer id = patch s peer id (λ m. record m { media_state = some error })
