-- ===== src/Call/Events.antt =====
-- The inbound signals, the events of the connection and the user's actions, and a run of events
-- (apps/mobile/src/call/manager.ts, `onSignal`, the listeners of `newPeerConnection`, the toggles).
use hwfa.Common.{
  ℕ, zero, suc, Bool, false, not, ◌||◌, Option, none, some, List, [], ◌∷◌, ◌++◌, map, ◌&&◌, String,
  ◌==◌, same_text, is_some, or_default, or_else, if◌then◌else◌,
}
use hwfa.Discovery.{truthy}
use hwfa.Wire.{CallSignal, ring, accept, decline, ice, hangup, Candidate}
use hwfa.Call.{
  CallStatus, idle_state, outgoing, incoming, completed, missed, declined, failed, set, reset,
}
use hwfa.Call.Manager.{
  Manager, Task, signal_accept, Answer, plain_signal, send_to, signal_called, finish,
}
use hwfa.Call.Tasks.{start, accept_call, decline_call, hangup_call, active_call, resume}

on_ring : Manager → String → CallSignal → Manager
unfolding send_to
on_ring m from signal =
    if is_some m.pc || truthy m.call_id
    then send_to m from (plain_signal decline signal.call_id)
    else record m {
      call_id = some signal.call_id;
      peer_id = some from;
      direction = incoming;
      video = or_default signal.video false;
      pending_offer = signal.sdp;
      store =
          set
            (λ s. record s {
              status = CallStatus.incoming;
              call_id = some signal.call_id;
              peer_id = some from;
              video = or_default signal.video false;
              muted = false;
              camera_off = false;
              remote_url = none;
            })
            m.store;
    }

-- The signal is about the current call.
abbrev pub is_current : Manager → CallSignal → Bool
is_current m signal = same_text (some signal.call_id) m.call_id

on_accept : Manager → ℕ → CallSignal → Manager
on_accept m now signal =
    if is_current m signal
    then (elim m.pc [
      | none ↦ m
      | some pc ↦ elim signal.sdp [
        | none ↦ active_call m now
        | some answer ↦ record m { tasks = m.tasks ++ signal_accept pc.serial answer ∷ [] }
      ]
    ])
    else m

-- A candidate waits until the connection has its remote description.
offer_candidate : Manager → Candidate → Manager
offer_candidate m c = elim m.pc [
  | none ↦ record m { pending_ice = m.pending_ice ++ c ∷ [] }
  | some pc ↦
      if is_some pc.remote_description
      then record m { pc = some (record pc { candidates = pc.candidates ++ c ∷ [] }) }
      else record m { pending_ice = m.pending_ice ++ c ∷ [] }
]

on_ice : Manager → CallSignal → Manager
unfolding offer_candidate
on_ice m signal =
    if is_current m signal
    then (elim signal.candidate [ none ↦ m | some c ↦ offer_candidate m c ])
    else m

on_decline : Manager → ℕ → CallSignal → Manager
on_decline m now signal = if is_current m signal then finish m now declined "Call declined" else m

on_hangup : Manager → ℕ → CallSignal → Manager
on_hangup m now signal =
    if is_current m signal
    then finish m now (if m.answered then completed else missed) "Call ended"
    else m

unfoldable pub on_signal : Manager → ℕ → String → CallSignal → Manager
unfolding on_ring on_accept on_ice on_decline on_hangup
on_signal m now from signal = elim signal.type [
  | ring ↦ on_ring m from signal
  | accept ↦ on_accept m now signal
  | ice ↦ on_ice m signal
  | decline ↦ on_decline m now signal
  | hangup ↦ on_hangup m now signal
]

abbrev pub any : List Bool → Bool
any [] = false
any (b ∷ bs) = b || any bs

-- `forEach` sets every track to the opposite of what `some` found.
unfoldable pub toggle_mute : Manager → Manager
toggle_mute m = elim m.media [
  | none ↦ m
  | some s ↦
      let enabled = any s.audio in
      record m {
        media = some (record s { audio = map (λ _. not enabled) s.audio });
        store = set (λ u. record u { muted = enabled }) m.store;
      }
]

unfoldable pub toggle_camera : Manager → Manager
toggle_camera m = elim m.media [
  | none ↦ m
  | some s ↦
      let enabled = any s.video in
      record m {
        media = some (record s { video = map (λ _. not enabled) s.video });
        store = set (λ u. record u { camera_off = enabled }) m.store;
      }
]

-- The listener for `icecandidate`: a found candidate goes to the peer of the current call.
ice_found : Manager → Option Candidate → Manager
ice_found m none = m
ice_found m (some c) = signal_called m (λ id. record (plain_signal ice id) { candidate = some c })

-- The listener for `track`; the stream is known by its URL.
track_added : Manager → Option String → Manager
track_added m url =
    let remote = or_else url m.remote in
    elim remote [
      | none ↦ record m { remote = none }
      | some u ↦ record m {
        remote = some u;
        store = set (λ s. record s { remote_url = some u }) m.store;
      }
    ]

connection_changed : Manager → ℕ → String → Manager
connection_changed m now state =
    if (state == "failed" || state == "disconnected" || state == "closed") && truthy m.call_id
    then finish m now (if m.answered then completed else failed) "Call ended"
    else m

-- The timer of `finish` or of a denied start.
reset_fired : Manager → ℕ → Manager
reset_fired m zero = m
reset_fired m (suc n) = record m { resets = n; store = reset m.store }

pub data Event : Type 0 where
  started : String → Option String → Bool → Event
  signalled : String → CallSignal → Event
  accepted declined_by_user hung_up mute_toggled camera_toggled reset_due : Event
  ice_gathered : Option Candidate → Event
  track_arrived : Option String → Event
  connection_state : String → Event
  -- The method that waits at this place of the queue gets its answer.
  resumed : ℕ → Answer → Event

abbrev pub task_at : List Task → ℕ → Option Task
task_at [] i = none
task_at (t ∷ ts) zero = some t
task_at (t ∷ ts) (suc i) = task_at ts i

abbrev pub drop_task : List Task → ℕ → List Task
drop_task [] i = []
drop_task (t ∷ ts) zero = ts
drop_task (t ∷ ts) (suc i) = t ∷ drop_task ts i

unfoldable pub resume_at : Manager → ℕ → ℕ → Answer → Manager
resume_at m now i answer = elim (task_at m.tasks i) [
  | none ↦ m
  | some t ↦ resume (record m { tasks = drop_task m.tasks i }) now t answer
]

-- One event, at a time.
unfoldable pub step : Manager → ℕ → Event → Manager
unfolding ice_found track_added connection_changed reset_fired
step m now (started peer name video) = start m peer name video
step m now (signalled from signal) = on_signal m now from signal
step m now accepted = accept_call m
step m now declined_by_user = decline_call m now
step m now hung_up = hangup_call m now
step m now mute_toggled = toggle_mute m
step m now camera_toggled = toggle_camera m
step m now reset_due = reset_fired m m.resets
step m now (ice_gathered c) = ice_found m c
step m now (track_arrived url) = track_added m url
step m now (connection_state state) = connection_changed m now state
step m now (resumed i answer) = resume_at m now i answer

unfoldable pub run : Manager → List (ℕ × Event) → Manager
run m [] = m
run m ((now, e) ∷ es) = run (step m now e) es

abbrev pub init : Manager
init = record {
  pc = none;
  media = none;
  remote = none;
  call_id = none;
  peer_id = none;
  direction = outgoing;
  video = false;
  answered = false;
  pending_ice = [];
  pending_offer = none;
  store = record { state = idle_state; log = [] };
  sent = [];
  tasks = [];
  resets = 0;
  next_serial = 0;
}
