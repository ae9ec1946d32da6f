-- ===== src/Call/Manager.antt =====
-- The call engine (apps/mobile/src/call/manager.ts, class CallManager).
-- An async method runs up to its next `await` and leaves a `Task`, which a later event resumes with
-- an `Answer`; so every interleaving of the methods is a list of events. Not the program's are the
-- answers of WebRTC and of the permission dialog, fresh call ids and the clock: events carry them.
-- An answer may come at any time, also after the connection that it is for was closed or replaced:
-- the method then goes on with what `this.pc` is by then. Connections that `this.pc` no longer holds
-- are not kept. The candidates of one `drainIce` are offered in one go. `pc`, `callId` and `peerId`
-- are tested by truthiness in the code: an empty id counts as none in such a test.
use hwfa.Common.{
  ℕ, suc, Bool, false, ◌&&◌, Option, none, some, List, [], ◌∷◌, ◌++◌, String, if◌then◌else◌,
}
use hwfa.Discovery.{truthy}
use hwfa.Wire.{CallSignal, CallSignalType, Sdp, Candidate}
use hwfa.Call.{CallStatus, Direction, Outcome, CallStore, set, add_log}

-- A MediaStream: whether each of its tracks is enabled.
pub record Media : Type 0 where
  pub url : String
  pub audio : List Bool
  pub video : List Bool

-- What the manager uses of an RTCPeerConnection. `serial` tells connections apart.
pub record PeerConnection : Type 0 where
  pub serial : ℕ
  pub remote_description : Option Sdp
  pub local_description : Option Sdp
  pub candidates : List Candidate
  pub tracks : ℕ

-- Where an async method waits.
pub data Task : Type 0 where
  start_permission : String → Option String → Bool → Task
  start_media start_offer : Bool → Task
  start_local : ℕ → Sdp → Bool → Task
  accept_permission accept_media : Task
  accept_remote : ℕ → Sdp → Task
  accept_drained accept_answer : Task
  accept_local : ℕ → Sdp → Task
  signal_accept : ℕ → Sdp → Task
  signal_drained : Task

pub data Answer : Type 0 where
  -- `ensurePermissions`, with the id that `newCallId` makes next.
  permission : Bool → String → Answer
  stream : Media → Answer
  sdp : Sdp → Answer
  done rejected : Answer

pub record Manager : Type 0 where
  pub pc : Option PeerConnection
  pub media : Option Media
  pub remote : Option String
  pub call_id : Option String
  pub peer_id : Option String
  pub direction : Direction
  pub video : Bool
  pub answered : Bool
  pub pending_ice : List Candidate
  pub pending_offer : Option Sdp
  -- The call store that the manager drives.
  pub store : CallStore
  -- Signals handed to the client, oldest first.
  pub sent : List (String × CallSignal)
  -- Methods that wait, timers that will reset the store, and the next connection's serial.
  pub tasks : List Task
  pub resets : ℕ
  pub next_serial : ℕ

abbrev pub plain_signal : CallSignalType → String → CallSignal
plain_signal t id = record { type = t; call_id = id; video = none; sdp = none; candidate = none }

unfoldable pub send_to : Manager → String → CallSignal → Manager
send_to m peer signal = record m { sent = m.sent ++ (peer, signal) ∷ [] }

-- `this.signal`: nothing is sent without a peer. Its caller puts the current call's id in, which is
-- there if the peer is.
unfoldable pub signal_peer : Manager → (String → CallSignal) → Manager
unfolding send_to
signal_peer m signal = elim m.peer_id [
  | none ↦ m
  | some peer ↦ elim m.call_id [
    | none ↦ m
    | some id ↦ if truthy m.peer_id then send_to m peer (signal id) else m
  ]
]

-- `if (this.callId) this.signal(...)`.
unfoldable pub signal_called : Manager → (String → CallSignal) → Manager
unfolding signal_peer
signal_called m signal = if truthy m.call_id then signal_peer m signal else m

abbrev pub wait : Manager → Task → Manager
wait m t = record m { tasks = m.tasks ++ t ∷ [] }

abbrev new_peer_connection : ℕ → PeerConnection
new_peer_connection n = record {
  serial = n;
  remote_description = none;
  local_description = none;
  candidates = [];
  tracks = 0;
}

-- `this.pc = this.newPeerConnection()`.
abbrev pub open_connection : Manager → Manager
open_connection m = record m {
  pc = some (new_peer_connection m.next_serial);
  next_serial = suc m.next_serial;
}

unfoldable pub log_call : Manager → ℕ → Outcome → CallStore
log_call m now outcome = elim m.call_id [
  | none ↦ m.store
  | some id ↦ elim m.peer_id [
    | none ↦ m.store
    | some peer ↦
        if truthy m.call_id && truthy m.peer_id
        then add_log
            (record {
              call_id = id;
              peer_id = peer;
              peer_name = m.store.state.peer_name;
              video = m.video;
              direction = m.direction;
              outcome = outcome;
              at = now;
            })
            m.store
        else m.store
  ]
]

-- Tear down the call and log it.
unfoldable pub finish : Manager → ℕ → Outcome → String → Manager
finish m now outcome reason = record m {
  pc = none;
  media = none;
  remote = none;
  call_id = none;
  peer_id = none;
  answered = false;
  pending_ice = [];
  pending_offer = none;
  store =
      set
        (λ s. record s {
          status = CallStatus.ended;
          ended_reason = some reason;
          local_url = none;
          remote_url = none;
        })
        (log_call m now outcome);
  resets = suc m.resets;
}
