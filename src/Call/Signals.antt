-- ===== src/Call/Signals.antt =====
-- What one signal, one tear-down and one toggle do.
use hwfa.Common.{
  ℕ, Bool, true, false, not, ◌||◌, none, some, List, [], ◌∷◌, ◌++◌, ◌≡◌, ◌≢◌, refl, arith, String,
  is_some, map, All, ap, ◌∙◌, if◌then◌else◌,
}
use mathlib.Core.List.{append_assoc, append-nil}
use hwfa.Discovery.{truthy}
use hwfa.Wire.{CallSignal, ring, decline, ice, Candidate}
use hwfa.Call.Manager.{Manager, Media, plain_signal}
use hwfa.Call.Tasks.{drain_ice}
use hwfa.Call.Events.{is_current, on_signal, Event, signalled, step, run, any, toggle_mute}
use hwfa.Call.Invariant.{Inv}

-- Of a call that is there, or a connection.
abbrev pub is_busy : Manager → Bool
is_busy m = is_some m.pc || truthy m.call_id

module _ (m : Manager) (now : ℕ) (from : String) (s : CallSignal) where
  ring_when_busy :
      s.type ≡ ring
      → is_busy m ≡ true
      → on_signal m now from s
        ≡ record m { sent = m.sent ++ (from, plain_signal decline s.call_id) ∷ [] }
  unfolding on_signal
  ring_when_busy r busy = ground arith

  -- A signal other than a ring that is not about the current call changes nothing.
  stray_signal : s.type ≢ ring → is_current m s ≡ false → on_signal m now from s ≡ m
  unfolding on_signal
  stray_signal r stray = ground arith

abbrev is_ring : CallSignal → Bool
is_ring s = elim s.type [ ring ↦ true | _ ↦ false ]

abbrev pub Inbound : Type 0
Inbound = ℕ × String × CallSignal

-- What the rings among the signals are answered with.
abbrev pub declines : List Inbound → List (String × CallSignal)
declines [] = []
declines ((now, from, s) ∷ ss) =
    let rest = declines ss in
    if is_ring s then (from, plain_signal decline s.call_id) ∷ rest else rest

abbrev pub signals : List Inbound → List (ℕ × Event)
signals = map (λ i. (i.0, signalled i.1 i.2))

-- The signal is a ring, or it is not about the current call.
abbrev pub is_foreign : Manager → Inbound → Bool
is_foreign m i = is_ring i.2 || not (is_current m i.2)

declines_first :
    (now : ℕ) (from : String) (s : CallSignal) (ss : List Inbound)
    → declines ((now, from, s) ∷ []) ++ declines ss ≡ declines ((now, from, s) ∷ ss)
declines_first now from s ss = ground arith

foreign_step :
    (m : Manager) (now : ℕ) (from : String) (s : CallSignal)
    → is_busy m ≡ true
    → is_foreign m (now, from, s) ≡ true
    → on_signal m now from s ≡ record m { sent = m.sent ++ declines ((now, from, s) ∷ []) }
unfolding on_signal
foreign_step m now from s busy h = ground (arith, append-nil m.sent)

-- While there is a call or a connection, any number of signals in any order, each of them a ring or
-- not about that call, change nothing but what is sent: one decline for each ring, to its caller,
-- with its id, in the order of the rings.
pub foreign_signals :
    (m : Manager) (ss : List Inbound)
    → is_busy m ≡ true
    → All (λ i. is_foreign m i ≡ true) ss
    → run m (signals ss) ≡ record m { sent = m.sent ++ declines ss }
unfolding run step
foreign_signals m [] busy h = rw (append-nil m.sent) refl
foreign_signals m ((now, from, s) ∷ ss) busy (h, hs) =
    let first = m.sent ++ declines ((now, from, s) ∷ []) in
    ap (λ m'. run m' (signals ss)) (foreign_step m now from s busy h)
    ∙ foreign_signals (record m { sent = first }) ss busy hs
    ∙ ap (λ sent. record m { sent = sent })
        (append_assoc m.sent (declines ((now, from, s) ∷ [])) (declines ss)
          ∙ ap (λ d. m.sent ++ d) (declines_first now from s ss))

-- The candidates that the connection was offered, then those that wait.
abbrev pub collected : Manager → List Candidate
collected m = elim m.pc [ none ↦ m.pending_ice | some pc ↦ pc.candidates ++ m.pending_ice ]

-- A candidate signalled for the current call is kept behind all that came before it, whether it
-- waits or goes to the connection at once.
pub ice_in_order :
    (m : Manager) (now : ℕ) (from : String) (s : CallSignal) (c : Candidate)
    → Inv m
    → s.type ≡ ice
    → is_current m s ≡ true
    → s.candidate ≡ some c
    → collected (on_signal m now from s) ≡ collected m ++ c ∷ []
unfolding on_signal
ice_in_order m now from s c v t cur e = grind (arith, append_assoc, append-nil)

-- Draining offers every waiting candidate to the connection, behind the earlier ones and in order.
pub drain_ice_lem :
    (m : Manager)
    → is_some m.pc ≡ true
    → (collected (drain_ice m) ≡ collected m) × ((drain_ice m).pending_ice ≡ [])
unfolding drain_ice
drain_ice_lem m h = grind (arith, append-nil)

any-map_const : (b : Bool) (xs : List Bool) → xs ≢ [] → any (map (λ _. b) xs) ≡ b
any-map_const b [] ne = absurd (ne refl)
any-map_const true (x ∷ xs) ne = refl
any-map_const false (x ∷ []) ne = refl
any-map_const false (x ∷ y ∷ xs) ne = any-map_const false (y ∷ xs) (λ e. cc)

-- After a toggle on a stream with audio, `muted` tells the truth: it is set exactly when no audio
-- track is enabled. The toggle turns sound on if it was all off, and off otherwise.
pub toggle_mute_honest :
    (m : Manager) (s : Media)
    → m.media ≡ some s
    → s.audio ≢ []
    → (s' : Media) × ((toggle_mute m).media ≡ some s')
      × ((toggle_mute m).store.state.muted ≡ not (any s'.audio))
      × (any s'.audio ≡ not (any s.audio))
unfolding toggle_mute
toggle_mute_honest m s h ne =
    let flipped = any-map_const (not (any s.audio)) s.audio ne in
    (
      record s { audio = map (λ _. not (any s.audio)) s.audio },
      ground arith,
      rw flipped (ground arith),
      flipped,
    )
