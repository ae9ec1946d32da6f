-- ===== src/Call/Tasks.antt =====
-- The async methods of the call engine, cut at their awaits (apps/mobile/src/call/manager.ts: start,
-- accept, decline, hangup, attachLocalMedia, drainIce).
use hwfa.Common.{
  ℕ, suc, ◌+◌, Bool, true, false, ◌&&◌, Option, none, some, [], ◌++◌, String, is_some, nat_eq,
  length, if◌then◌else◌,
}
use hwfa.Discovery.{truthy}
use hwfa.Wire.{ring, accept, decline, hangup, Sdp}
use hwfa.Call.{CallStatus, Direction, outgoing, completed, missed, declined, set}
use hwfa.Call.Manager.{
  Manager, PeerConnection, Media, Task, Answer, start_permission, start_media, start_offer,
  start_local, accept_permission, accept_media, accept_remote, accept_drained, accept_answer,
  accept_local, signal_accept, signal_drained, permission, stream, sdp, done, plain_signal,
  signal_peer, signal_called, wait, open_connection, finish,
}

-- The user's `start`, up to the permission dialog.
unfoldable pub start : Manager → String → Option String → Bool → Manager
start m peer name video = if is_some m.pc then m else wait m (start_permission peer name video)

unfoldable pub start_granted : Manager → String → String → Option String → Bool → Manager
start_granted m id peer name video =
    wait
      (open_connection (record m {
        call_id = some id;
        peer_id = some peer;
        direction = outgoing;
        video = video;
        answered = false;
        store =
            set
              (λ s. record s {
                status = CallStatus.outgoing;
                call_id = some id;
                peer_id = some peer;
                peer_name = name;
                video = video;
                muted = false;
                camera_off = false;
                remote_url = none;
              })
              m.store;
      }))
      (start_media video)

unfoldable pub start_denied : Manager → Manager
start_denied m = record m {
  store =
      set (λ s. record s { status = CallStatus.ended; ended_reason = some "Permission denied" })
        m.store;
  resets = suc m.resets;
}

-- `attachLocalMedia` once the stream is there. `this.local` is set before `this.pc!` is used, so
-- with no connection the stream stays and the method throws; `next` is what follows otherwise.
unfoldable pub attach_local_media : Manager → Media → (Manager → PeerConnection → Manager) → Manager
attach_local_media m s next = elim m.pc [
  | none ↦ record m { media = some s }
  | some pc ↦
      let pc' = record pc { tracks = pc.tracks + length s.audio + length s.video } in
      next
        (record m {
          media = some s;
          pc = some pc';
          store = set (λ u. record u { local_url = some s.url }) m.store;
        })
        pc'
]

-- Offer what waits to the connection.
unfoldable pub drain_ice : Manager → Manager
drain_ice m = elim m.pc [
  | none ↦ m
  | some pc ↦ record m {
    pc = some (record pc { candidates = pc.candidates ++ m.pending_ice });
    pending_ice = [];
  }
]

-- `next` uses `this.pc` as it is now: a `TypeError` where there is none.
abbrev on_pc : Manager → (PeerConnection → Manager) → Manager
on_pc m next = elim m.pc [ none ↦ m | some pc ↦ next pc ]

-- The connection of this serial changes, if it is still the current one.
abbrev set_on : Manager → ℕ → (PeerConnection → PeerConnection) → Manager
set_on m n change = elim m.pc [
  | none ↦ m
  | some pc ↦ if nat_eq pc.serial n then record m { pc = some (change pc) } else m
]

abbrev pub active_call : Manager → ℕ → Manager
active_call m now = record m {
  answered = true;
  store = set (λ s. record s { status = CallStatus.active; started_at = some now }) m.store;
}

unfoldable pub decline_call : Manager → ℕ → Manager
unfolding signal_called
decline_call m now = finish (signal_called m (plain_signal decline)) now declined "Declined"

unfoldable pub hangup_call : Manager → ℕ → Manager
unfolding signal_called
hangup_call m now =
    finish (signal_called m (plain_signal hangup)) now (if m.answered then completed else missed)
      "Call ended"

-- The user's `accept`, up to the permission dialog.
unfoldable pub accept_call : Manager → Manager
accept_call m = elim m.direction [
  | Direction.outgoing ↦ m
  | Direction.incoming ↦
      if is_some m.pending_offer && truthy m.call_id && truthy m.peer_id
      then wait m accept_permission
      else m
]

-- After the local media of an accepted call: a missing offer is a `TypeError`.
unfoldable pub accept_offer : Manager → PeerConnection → Manager
accept_offer m pc = elim m.pending_offer [
  | none ↦ m
  | some offer ↦ wait m (accept_remote pc.serial offer)
]

unfoldable pub accept_answered : Manager → ℕ → ℕ → Sdp → Manager
unfolding signal_peer
accept_answered m now n answer =
    let m' = record (set_on m n (λ pc. record pc { local_description = some answer })) {
      answered = true;
    } in
    active_call (signal_peer m' (λ id. record (plain_signal accept id) { sdp = some answer })) now

abbrev set_remote : Manager → ℕ → Sdp → Manager
set_remote m n remote = set_on m n (λ pc. record pc { remote_description = some remote })

-- A waiting method goes on with its answer; a rejection, or an answer of another kind, ends it.
unfoldable pub resume : Manager → ℕ → Task → Answer → Manager
unfolding start_granted start_denied attach_local_media decline_call accept_offer drain_ice
    accept_answered signal_peer
resume m now (start_permission peer name video) (permission true id) =
    start_granted m id peer name video
resume m now (start_permission peer name video) (permission false id) = start_denied m
resume m now (start_media video) (stream s) =
    attach_local_media m s (λ m' pc. wait m' (start_offer video))
resume m now (start_offer video) (sdp offer) =
    on_pc m (λ pc. wait m (start_local pc.serial offer video))
resume m now (start_local n offer video) done =
    signal_peer (set_on m n (λ pc. record pc { local_description = some offer }))
      (λ id. record (plain_signal ring id) { video = some video; sdp = some offer })
resume m now accept_permission (permission false id) = decline_call m now
resume m now accept_permission (permission true id) = wait (open_connection m) accept_media
resume m now accept_media (stream s) = attach_local_media m s accept_offer
resume m now (accept_remote n offer) done = wait (drain_ice (set_remote m n offer)) accept_drained
resume m now accept_drained done = on_pc m (λ pc. wait m accept_answer)
resume m now accept_answer (sdp answer) = on_pc m (λ pc. wait m (accept_local pc.serial answer))
resume m now (accept_local n answer) done = accept_answered m now n answer
resume m now (signal_accept n answer) done = wait (drain_ice (set_remote m n answer)) signal_drained
resume m now signal_drained done = active_call m now
resume m now _ _ = m
