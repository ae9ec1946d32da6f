-- ===== src/Conversations/Laws/Listing.antt =====
-- The list that the screens read follows the conversations.
use hwfa.Common.{ℕ, Bool, true, not, Option, none, some, List, [], ◌∷◌, All, ◌≢◌, refl, String}
use mathlib.Core.List.{Perm}
use hwfa.Common.Dict.{values}
use hwfa.Common.Sort.{IsDescending, sort_desc-IsDescending, sort_desc-perm}
use hwfa.Models.{MessageStatus, ScamVerdict}
use hwfa.Wire.{Codecs, MediaReference}
use hwfa.Conversations.{PersistedState, Store, truthy, ready, error, messages_of}
use hwfa.Conversations.Receive.{receive}
use hwfa.Conversations.Outbound.{
  create_group, send, send_typing, send_media, media_uploaded, upload_failed,
}
use hwfa.Conversations.Attachments.{
  media_loaded, media_failed, load_pending_media, download_media, save_media, media_saved,
}
use hwfa.Conversations.Edit.{
  apply_status, mark_read, toggle_star, dismiss_scam_warning, set_peer_identity, ensure_peer, reset,
}
use hwfa.Conversations.Persist.{persist, hydrate}
use hwfa.Conversations.Laws.Current.{
  IsCurrent, patch-IsCurrent, map_message-IsCurrent, apply_status-IsCurrent, receive-IsCurrent,
  load_all-IsCurrent, send-IsCurrent, mark_read-IsCurrent, send_media-IsCurrent,
  send_typing-IsCurrent, save_media-IsCurrent, download_media-IsCurrent,
  set_peer_identity-IsCurrent, ensure_peer-IsCurrent, hydrate-IsCurrent,
}

pub data Event : Type 0 where
  received : ℕ → String → String → ℕ → Option String → Option ScamVerdict → Event
  sent : ℕ → String → String → Event
  typed : String → Bool → Event
  group_created : ℕ → String → String → List String → Event
  media_sent : ℕ → String → String → Option String → ℕ → String → Event
  uploaded : String → String → String → MediaReference → Event
  upload_rejected : String → String → Event
  loaded : String → String → String → Event
  load_rejected : String → String → Event
  opened downloads_due : String → Event
  download_asked save_asked saved starred dismissed : String → String → Event
  status_changed : String → MessageStatus → Event
  identity_learned : String → String → Event
  peer_found : String → Option String → Event
  persist_due logged_out : Event
  hydrated : Option PersistedState → Event

module _ (codecs : Codecs) (me : Option String) where
  unfoldable pub step : Store → Event → Store
  step s (received now peer text at id verdict) = receive codecs s me now peer text at id verdict
  step s (sent now peer text) = send codecs s me now peer text
  step s (typed id typing) = send_typing codecs s me id typing
  step s (group_created now gid name members) = create_group s now gid name members
  step s (media_sent now peer mime name size uri) = send_media codecs s now peer mime name size uri
  step s (uploaded peer id ref media) = media_uploaded codecs s peer id ref media
  step s (upload_rejected peer id) = upload_failed s peer id
  step s (loaded peer id uri) = media_loaded s peer id uri
  step s (load_rejected peer id) = media_failed s peer id
  step s (opened peer) = mark_read s peer
  step s (downloads_due peer) = load_pending_media s peer
  step s (download_asked peer id) = download_media s peer id
  step s (save_asked peer id) = save_media s peer id
  step s (saved peer id) = media_saved s peer id
  step s (starred peer id) = toggle_star s peer id
  step s (dismissed peer id) = dismiss_scam_warning s peer id
  step s (status_changed ref status) = apply_status s ref status
  step s (identity_learned peer identity) = set_peer_identity s peer identity
  step s (peer_found peer phone) = ensure_peer s peer phone
  step s persist_due = persist s
  step s logged_out = reset s
  step s (hydrated stored) = hydrate s stored

  unfoldable pub run : Store → List Event → Store
  run s [] = s
  run s (e ∷ es) = run (step s e) es

-- A peer is announced together with a phone, as the contacts screen does.
abbrev pub IsAnnounced : Event → Type 0
IsAnnounced (peer_found peer phone) = truthy phone ≢ none
IsAnnounced _ = Unit

step-IsCurrent :
    (codecs : Codecs) (me : Option String) (s : Store) (e : Event)
    → IsAnnounced e
    → IsCurrent s
    → IsCurrent (step codecs me s e)
unfolding step media_uploaded media_loaded media_failed upload_failed load_pending_media media_saved
    toggle_star dismiss_scam_warning persist reset create_group
step-IsCurrent codecs me s (received now peer text at id verdict) q h =
    receive-IsCurrent codecs s me now peer text at id verdict h
step-IsCurrent codecs me s (sent now peer text) q h = send-IsCurrent codecs s me now peer text
step-IsCurrent codecs me s (typed id typing) q h = send_typing-IsCurrent codecs s me id typing h
step-IsCurrent codecs me s (group_created now gid name members) q h = refl
step-IsCurrent codecs me s (media_sent now peer mime name size uri) q h =
    send_media-IsCurrent codecs s now peer mime name size uri
step-IsCurrent codecs me s (uploaded peer id ref media) q h =
    patch-IsCurrent s peer id (λ m. record m { media = some media }) h
step-IsCurrent codecs me s (upload_rejected peer id) q h =
    patch-IsCurrent s peer id (λ m. record m { media_state = some error }) h
step-IsCurrent codecs me s (loaded peer id uri) q h =
    patch-IsCurrent s peer id (λ m. record m { media_uri = some uri; media_state = some ready }) h
step-IsCurrent codecs me s (load_rejected peer id) q h =
    patch-IsCurrent s peer id (λ m. record m { media_state = some error }) h
step-IsCurrent codecs me s (opened peer) q h = mark_read-IsCurrent s peer h
step-IsCurrent codecs me s (downloads_due peer) q h =
    load_all-IsCurrent s peer (messages_of s peer) h
step-IsCurrent codecs me s (download_asked peer id) q h = download_media-IsCurrent s peer id h
step-IsCurrent codecs me s (save_asked peer id) q h = save_media-IsCurrent s peer id h
step-IsCurrent codecs me s (saved peer id) q h =
    patch-IsCurrent s peer id (λ m. record m { media_saved = true }) h
step-IsCurrent codecs me s (starred peer id) q h =
    map_message-IsCurrent s peer id (λ m. record m { starred = not m.starred }) h
step-IsCurrent codecs me s (dismissed peer id) q h =
    map_message-IsCurrent s peer id (λ m. record m { dismissed = true }) h
step-IsCurrent codecs me s (status_changed ref status) q h = apply_status-IsCurrent s ref status h
step-IsCurrent codecs me s (identity_learned peer identity) q h =
    set_peer_identity-IsCurrent s peer identity h
step-IsCurrent codecs me s (peer_found peer phone) q h = ensure_peer-IsCurrent s peer phone q h
step-IsCurrent codecs me s persist_due q h = h
step-IsCurrent codecs me s logged_out q h = refl
step-IsCurrent codecs me s (hydrated stored) q h = hydrate-IsCurrent s stored h

-- After any sequence of receiving, sending, typing, attachments, reads, stars, status changes,
-- restarts and logging out, in any order, the list that the screens read holds exactly the
-- conversations of the map, most recent first, if peers are announced together with a phone.
pub run-IsCurrent :
    (codecs : Codecs) (me : Option String) (s : Store) (es : List Event)
    → IsCurrent s
    → All IsAnnounced es
    → let s' = run codecs me s es in
      IsCurrent s'
      × IsDescending (λ c. c.last_at) s'.list_snapshot
      × Perm s'.list_snapshot (values s'.convs)
unfolding run
run-IsCurrent codecs me s [] h q = (
  h,
  rw h (sort_desc-IsDescending (λ c. c.last_at) (values s.convs)),
  rw h (sort_desc-perm (λ c. c.last_at) (values s.convs)),
)
run-IsCurrent codecs me s (e ∷ es) h (q, qs) =
    run-IsCurrent codecs me (step codecs me s e) es (step-IsCurrent codecs me s e q h) qs
