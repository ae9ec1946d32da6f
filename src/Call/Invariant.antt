-- ===== src/Call/Invariant.antt =====
-- What holds of the call engine after any events, in any order, with any answers.
use hwfa.Common.{
  ℕ, ◌≤◌, Bool, true, false, none, some, List, [], ◌∷◌, ◌≡◌, refl, arith, length, length-take,
  String, is_some, Option-cases, inl, inr,
}
use hwfa.Wire.{CallSignal}
use hwfa.Call.{CallStore, add_log, CallLogEntry, Outcome}
use hwfa.Call.Manager.{
  Manager, Task, start_permission, accept_permission, Answer, log_call, signal_peer, signal_called,
  finish,
}
use hwfa.Call.Tasks.{start, accept_call, decline_call, hangup_call, resume}
use hwfa.Call.Events.{
  on_signal, toggle_mute, toggle_camera, Event, signalled, declined_by_user, hung_up, ice_gathered,
  connection_state, resumed, task_at, drop_task, resume_at, step, run, init,
}

-- The connection has its remote description, so candidates go to it at once.
abbrev pub has_remote : Manager → Bool
has_remote m = elim m.pc [ none ↦ false | some pc ↦ is_some pc.remote_description ]

-- A call has an id and a peer together; without one nothing of it is kept; candidates wait only
-- while there is no remote description; the log is bounded.
pub record Inv (m : Manager) : Type 0 where
  pub peerless : m.call_id ≡ none → m.peer_id ≡ none
  pub idless : m.peer_id ≡ none → m.call_id ≡ none
  pub no_ice : m.call_id ≡ none → m.pending_ice ≡ []
  pub no_offer : m.call_id ≡ none → m.pending_offer ≡ none
  pub drained : has_remote m ≡ true → m.pending_ice ≡ []
  pub log_bounded : length m.store.log ≤ 100

length-add_log-le : (e : CallLogEntry) (s : CallStore) → length (add_log e s).log ≤ 100
unfolding add_log
length-add_log-le e s = omega (arith, length-take 100 (e ∷ s.log))

log_call-bounded :
    (m : Manager) (now : ℕ) (outcome : Outcome)
    → length m.store.log ≤ 100
    → length (log_call m now outcome).log ≤ 100
unfolding log_call
log_call-bounded m now outcome h = grind (arith, length-add_log-le)

pub finish-Inv :
    (m : Manager) (now : ℕ) (outcome : Outcome) (reason : String)
    → Inv m
    → Inv (finish m now outcome reason)
unfolding finish
finish-Inv m now outcome reason v = record {
  peerless = λ _. refl;
  idless = λ _. refl;
  no_ice = λ _. refl;
  no_offer = λ _. refl;
  drained = λ _. refl;
  log_bounded = log_call-bounded m now outcome v.log_bounded;
}

signal_peer-Inv : (m : Manager) (s : String → CallSignal) → Inv m → Inv (signal_peer m s)
unfolding signal_peer
signal_peer-Inv m s v = ground arith

signal_called-Inv : (m : Manager) (s : String → CallSignal) → Inv m → Inv (signal_called m s)
unfolding signal_called
signal_called-Inv m s v = grind (arith, signal_peer-Inv m s v)

decline_call-Inv : (m : Manager) (now : ℕ) → Inv m → Inv (decline_call m now)
unfolding decline_call
decline_call-Inv m now v = finish-Inv _ now _ _ (signal_called-Inv m _ v)

hangup_call-Inv : (m : Manager) (now : ℕ) → Inv m → Inv (hangup_call m now)
unfolding hangup_call
hangup_call-Inv m now v = finish-Inv _ now _ _ (signal_called-Inv m _ v)

on_signal-Inv :
    (m : Manager) (now : ℕ) (from : String) (s : CallSignal) → Inv m → Inv (on_signal m now from s)
unfolding on_signal
on_signal-Inv m now from s v = grind (arith, finish-Inv)

resume-Inv : (m : Manager) (now : ℕ) (t : Task) (a : Answer) → Inv m → Inv (resume m now t a)
unfolding resume
resume-Inv m now (start_permission p n v) a i = ground arith
resume-Inv m now accept_permission a i = grind (arith, decline_call-Inv)
resume-Inv m now _ a i = ground arith

resume_at-Inv : (m : Manager) (now k : ℕ) (a : Answer) → Inv m → Inv (resume_at m now k a)
unfolding resume_at
resume_at-Inv m now k a i =
    let dropped : Inv (record m { tasks = drop_task m.tasks k }) = ground arith in
    elim (Option-cases (task_at m.tasks k)) [
      | inl e ↦ rw (e, resume_at) i
      | inr (t, e) ↦ rw (e, resume_at) (resume-Inv _ now t a dropped)
    ]

-- One event keeps the invariant.
step-Inv : (m : Manager) (now : ℕ) (e : Event) → Inv m → Inv (step m now e)
unfolding step start accept_call toggle_mute toggle_camera
step-Inv m now (signalled from s) i = on_signal-Inv m now from s i
step-Inv m now declined_by_user i = decline_call-Inv m now i
step-Inv m now hung_up i = hangup_call-Inv m now i
step-Inv m now (connection_state s) i = grind (arith, finish-Inv)
step-Inv m now (ice_gathered none) i = i
step-Inv m now (ice_gathered (some c)) i = signal_called-Inv m _ i
step-Inv m now (resumed k a) i = resume_at-Inv m now k a i
step-Inv m now _ i = ground arith

init-Inv : Inv init
init-Inv = record {
  peerless = λ _. refl;
  idless = λ _. refl;
  no_ice = λ _. refl;
  no_offer = λ _. refl;
  drained = λ _. refl;
  log_bounded = omega arith;
}

run-Inv_from : (m : Manager) (es : List (ℕ × Event)) → Inv m → Inv (run m es)
unfolding run
run-Inv_from m [] v = v
run-Inv_from m ((now, e) ∷ es) v = run-Inv_from (step m now e) es (step-Inv m now e v)

-- Whatever the user, the peers, WebRTC and the timers do, in any order from the start: a call id
-- comes with a peer and a peer with a call id; without a call no candidate and no offer is kept;
-- candidates wait only while the connection lacks its remote description; the log holds at most
-- 100 entries.
pub run-Inv : (es : List (ℕ × Event)) → Inv (run init es)
run-Inv es = run-Inv_from init es init-Inv
