-- ===== src/Call/Races.antt =====
-- Tear-down, and what happens when it meets a method that waits or a timer that is still to fire.
use hwfa.Common.{
  ℕ, Bool, true, Option, none, some, [], ◌∷◌, ◌++◌, ◌≡◌, ◌≢◌, eq_iff, arith, String, is_some, take,
  if◌then◌else◌,
}
use hwfa.Wire.{CallSignal, ring, hangup}
use hwfa.Call.{CallStatus, CallLogEntry, Outcome, completed, missed, idle_state, add_log}
use hwfa.Call.Manager.{
  Manager, Media, start_media, accept_permission, permission, stream, plain_signal, log_call,
  signal_called, signal_peer, finish,
}
use hwfa.Call.Tasks.{start, hangup_call, resume}
use hwfa.Call.Events.{
  is_current, on_signal, signalled, hung_up, reset_due, resumed, task_at, resume_at, step, run,
}

-- The log entry that the end of a call makes.
abbrev pub entry_of : Manager → String → String → ℕ → Outcome → CallLogEntry
entry_of m id peer now outcome = record {
  call_id = id;
  peer_id = peer;
  peer_name = m.store.state.peer_name;
  video = m.video;
  direction = m.direction;
  outcome = outcome;
  at = now;
}

-- Hanging up a call, whose ids are not empty, tells its peer, and no other, with the call's id; releases the connection, the
-- media, the waiting candidates and the stashed offer; and puts exactly one entry before the log,
-- `completed` if the call was answered and `missed` if it was not, cut to 100 entries.
pub hangup_call_lem :
    (m : Manager) (now : ℕ) (id peer : String)
    → m.call_id ≡ some id
    → m.peer_id ≡ some peer
    → id ≢ ""
    → peer ≢ ""
    → let m' = hangup_call m now in
      (m'.sent ≡ m.sent ++ (peer, plain_signal hangup id) ∷ [])
      × (m'.pc ≡ none)
      × (m'.media ≡ none)
      × (m'.call_id ≡ none)
      × (m'.peer_id ≡ none)
      × (m'.pending_ice ≡ [])
      × (m'.pending_offer ≡ none)
      × (m'.store.state.status ≡ CallStatus.ended)
      × (m'.store.log
          ≡ take 100
              (entry_of m id peer now (if m.answered then completed else missed) ∷ m.store.log))
unfolding hangup_call finish log_call add_log
hangup_call_lem m now id peer p q n k =
    ground (arith, signal_called, signal_peer, eq_iff id "", eq_iff peer "")

-- The timer that `finish` leaves is not cancelled: if a call rings after a hang-up and before the
-- timer fires, then the timer shows the idle state while the new call is still pending.
pub stale_reset :
    (m : Manager) (t₀ t₁ t₂ : ℕ) (from : String) (s : CallSignal)
    → s.type ≡ ring
    → let m' = run m ((t₀, hung_up) ∷ (t₁, signalled from s) ∷ (t₂, reset_due) ∷ []) in
      (m'.call_id ≡ some s.call_id) × (m'.store.state ≡ idle_state)
unfolding run step hangup_call finish on_signal
stale_reset m t₀ t₁ t₂ from s r = ground arith

-- A hang-up while `start` waits for the camera and microphone does not release them: when they
-- arrive the stream is kept, with no call and no connection.
pub media_leak :
    (m : Manager) (t₀ t₁ i : ℕ) (video : Bool) (s : Media)
    → task_at m.tasks i ≡ some (start_media video)
    → let m' = run m ((t₀, hung_up) ∷ (t₁, resumed i (stream s)) ∷ []) in
      (m'.media ≡ some s) × (m'.call_id ≡ none) × (m'.pc ≡ none)
unfolding run step hangup_call finish resume_at resume
media_leak m t₀ t₁ i video s e = ground arith

-- If the caller hangs up while the callee's permission dialog for `accept` is open, the granted
-- permission makes a connection that belongs to no call; from then on every `start` is ignored.
pub accept_race :
    (m : Manager) (t₀ t₁ i : ℕ) (from id peer : String) (name : Option String) (video : Bool)
    (s : CallSignal)
    → task_at m.tasks i ≡ some accept_permission
    → s.type ≡ hangup
    → is_current m s ≡ true
    → let m' = run m ((t₀, signalled from s) ∷ (t₁, resumed i (permission true id)) ∷ []) in
      (is_some m'.pc ≡ true) × (m'.call_id ≡ none) × (start m' peer name video ≡ m')
unfolding run step finish on_signal resume_at resume start
accept_race m t₀ t₁ i from id peer name video s e h cur = (ground arith, ground arith, ground arith)
