-- ===== src/Call/Tests.antt =====
-- Concrete calls, on which the laws are used.
use hwfa.Common.{ℕ, true, none, some, List, [], ◌∷◌, ◌++◌, ◌≡◌, refl, arith, String}
use hwfa.Wire.{CallSignal, ring, ice, Candidate}
use hwfa.Call.Manager.{Manager, Media, accept_permission, plain_signal}
use hwfa.Call.Events.{Event, signalled, accepted, hung_up, run, init}
use hwfa.Call.Invariant.{Inv, run-Inv}
use hwfa.Call.Signals.{Inbound, declines, signals, foreign_signals}

abbrev ring_of : String → CallSignal
ring_of id = plain_signal ring id

abbrev candidate : Candidate
candidate = record { candidate = "c"; sdp_mid = none; sdp_m_line_index = none }

abbrev ice_of : String → CallSignal
ice_of id = record (plain_signal ice id) { candidate = some candidate }

abbrev rung : List (ℕ × Event)
rung = (1, signalled "bob" (ring_of "k1")) ∷ []

-- Bob rings.
abbrev ringing : Manager
ringing = record init { call_id = some "k1"; peer_id = some "bob" }

-- The permission dialog of `accept` is open.
abbrev accepting : Manager
accepting = record ringing { tasks = accept_permission ∷ [] }

abbrev loud : Media
loud = record { url = "u"; audio = true ∷ []; video = [] }

run-Inv_example : Inv (
    run init (
      (1, signalled "bob" (ring_of "k1"))
      ∷ (2, signalled "bob" (ice_of "k1"))
      ∷ (3, accepted)
      ∷ (4, hung_up)
      ∷ []))
run-Inv_example = run-Inv (
    (1, signalled "bob" (ring_of "k1"))
    ∷ (2, signalled "bob" (ice_of "k1"))
    ∷ (3, accepted)
    ∷ (4, hung_up)
    ∷ [])

abbrev strangers : List Inbound
strangers = (5, "eve", ring_of "k2") ∷ (6, "eve", ice_of "k2") ∷ (7, "dan", ring_of "k3") ∷ []

foreign_signals_example :
    run ringing (signals strangers) ≡ record ringing { sent = ringing.sent ++ declines strangers }
foreign_signals_example = foreign_signals ringing strangers refl (refl, (refl, (refl, tt)))

ringing-Inv : Inv ringing
ringing-Inv = record {
  peerless = λ e. cc;
  idless = λ e. cc;
  no_ice = λ e. refl;
  no_offer = λ e. refl;
  drained = λ e. refl;
  log_bounded = omega arith;
}
