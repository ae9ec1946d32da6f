-- ===== src/Conversations/Laws/Routing.antt =====
-- Each kind of body that a peer builds goes to its own place, with its payload.
use hwfa.Common.{
  ℕ, ◌+◌, false, Option, some, [], ◌∷◌, ◌++◌, ◌≡◌, ◌≢◌, refl, ap, ◌∙◌, arith, String, or_default,
  eq_iff, eq_refl,
}
use hwfa.Common.Dict.{get, set, get-set}
use hwfa.Models.{ScamVerdict}
use hwfa.Wire.{Codecs, RoundTrips, CallSignal, GroupPayload, TypingPayload, StatusPayload}
use hwfa.Wire.Bodies.{build_call_body, build_group_body, build_typing_body, build_status_body}
use hwfa.Wire.Bodies.Laws.{
  kinds-build_call_body, kinds-build_group_body, kinds-build_typing_body, kinds-build_status_body,
  parse_call_body-build_call_body, parse_group_body-build_group_body,
  parse_typing_body-build_typing_body, parse_status_body-build_status_body,
}
use hwfa.Statuses.{receive_status}
use hwfa.Typing.{receive_typing}
use hwfa.Conversations.{
  ChatMessage, Conversation, Store, route_call_signal, effect, conv_of, make, truthy,
}
use hwfa.Conversations.Receive.{
  receive, receive_typing_payload, receive_status_payload, receive_group, members_without,
  group_conv, phone_of,
}

-- An inbound text `body` from `peer`.
module _ (codecs : Codecs) (s : Store) (me : Option String) (now : ℕ) (peer : String) (at : ℕ)
    (envelope_id : Option String) (verdict : Option ScamVerdict) where
  -- A typing signal changes the typing store alone: the thread is the group's if it names one, and
  -- the sender's otherwise.
  pub receive-build_typing_body :
      (p : TypingPayload)
      → RoundTrips codecs.typing p
      → receive codecs s me now peer (build_typing_body codecs.typing p) at envelope_id verdict
        ≡ record s { typing = receive_typing s.typing now (or_default p.gid peer) peer p.typing }
  unfolding receive receive_typing_payload
  receive-build_typing_body p rt = ground (
    arith,
    kinds-build_typing_body codecs.typing p,
    parse_typing_body-build_typing_body codecs.typing p rt,
  )

  -- A call signal is handed to the call manager and changes no thread.
  pub receive-build_call_body :
      (signal : CallSignal)
      → RoundTrips codecs.call signal
      → receive codecs s me now peer (build_call_body codecs.call signal) at envelope_id verdict
        ≡ effect s (route_call_signal peer signal)
  unfolding receive
  receive-build_call_body signal rt = ground (
    arith,
    kinds-build_call_body codecs.call signal,
    parse_call_body-build_call_body codecs.call signal rt,
  )

  -- A status changes the list of statuses alone.
  pub receive-build_status_body :
      (p : StatusPayload)
      → RoundTrips codecs.status p
      → receive codecs s me now peer (build_status_body codecs.status p) at envelope_id verdict
        ≡ record s { statuses = receive_status s.statuses now peer p (phone_of s peer) }
  unfolding receive receive_status_payload
  receive-build_status_body p rt = ground (
    arith,
    kinds-build_status_body codecs.status p,
    parse_status_body-build_status_body codecs.status p rt,
  )

  dispatch-build_group_body :
      (p : GroupPayload)
      → RoundTrips codecs.group p
      → receive codecs s me now peer (build_group_body codecs.group p) at envelope_id verdict
        ≡ receive_group s me peer at envelope_id verdict p
  unfolding receive
  dispatch-build_group_body p rt = ground (
    arith,
    kinds-build_group_body codecs.group p,
    parse_group_body-build_group_body codecs.group p rt,
  )

  -- The message that a group body makes.
  abbrev group_message : GroupPayload → ChatMessage
  group_message p = record (make s p.text false at).0 {
    sender_id = some peer;
    envelope_id = truthy envelope_id;
    verdict = verdict;
  }

  convs-receive_group :
      (p : GroupPayload)
      → (receive_group s me peer at envelope_id verdict p).convs
        ≡ set s.convs p.gid (record (group_conv s me p) {
          messages = (conv_of s p.gid).messages ++ group_message p ∷ [];
          unread = (conv_of s p.gid).unread + 1;
          last_at = at;
        })
  unfolding receive_group
  convs-receive_group p = refl

  -- A group body adds one message at the end of the group's thread, whoever sent it: it has the
  -- payload's text and names its sender; one more is unread there; the thread has the payload's
  -- name and its members but us. No other conversation changes.
  pub receive-build_group_body :
      (p : GroupPayload) (j : String)
      → RoundTrips codecs.group p
      → p.gid ≢ j
      → let s' =
          receive codecs s me now peer (build_group_body codecs.group p) at envelope_id verdict in
        (conv : Conversation) × (m : ChatMessage) × (get s'.convs p.gid ≡ some conv)
        × (conv.messages ≡ (conv_of s p.gid).messages ++ m ∷ [])
        × (m.text ≡ p.text)
        × (m.sender_id ≡ some peer)
        × (m.mine ≡ false)
        × (conv.unread ≡ (conv_of s p.gid).unread + 1)
        × (conv.group
            ≡ some (record { name = p.name; members = members_without (truthy me) p.members }))
        × (get s'.convs j ≡ get s.convs j)
  unfolding group_conv make
  receive-build_group_body p j rt n =
      let put_conv =
        ap (λ (t : Store). t.convs) (dispatch-build_group_body p rt) ∙ convs-receive_group p in
      (
        record (group_conv s me p) {
          messages = (conv_of s p.gid).messages ++ group_message p ∷ [];
          unread = (conv_of s p.gid).unread + 1;
          last_at = at;
        },
        group_message p,
        rw put_conv (rw (get-set, eq_refl p.gid)),
        refl,
        refl,
        refl,
        refl,
        refl,
        refl,
        rw put_conv (rw get-set (ground (arith, eq_iff p.gid j))),
      )
