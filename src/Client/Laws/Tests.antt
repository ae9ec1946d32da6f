-- ===== src/Client/Laws/Tests.antt =====
-- Concrete clients, on which the laws are used.
use hwfa.Common.{
  true, false, none, some, List, inl, inr, [], ◌∷◌, ◌++◌, ◌≡◌, ◌≤◌, ◌+◌, refl, String,
  ne_of_eq_false,
}
use hwfa.Common.Dict.{get}
use hwfa.Models.{whisper, Envelope, MessageStatus, Receipt, deliver, ack, ScamVerdict}
use hwfa.Client.{Client, init, access, opening, connected, offline, status_shown}
use hwfa.Client.Connection.{backoff_ms, close}
use hwfa.Client.Messages.{Services}
use hwfa.Client.Events.{answered, rejected, message, retry_due, socket_gone, run}
use hwfa.Client.Laws.Reconnect.{IsWaiting, failures, success, retries_lem}
use hwfa.Client.Laws.Down.{close_is_final, refresh_failure}
use hwfa.Client.Laws.Copies.{Copies}
use hwfa.Client.Laws.Fanout.{shown_for, statuses, ack_lem}

abbrev verdict_of : String → ScamVerdict
verdict_of text = record { flagged = false; category = none; score = 0; model_version = "m" }

-- Bob has a phone and a tablet; every bundle names device 7.
abbrev services : Services
services = record {
  list_devices = λ peer. some ("bob-tablet" ∷ peer ∷ []);
  fetch_bundle = λ peer. some (record { device_id = 7; identity_key_b64 = peer });
  establish_session = λ peer bundle. true;
  encrypt = λ peer device text. some (record { type = whisper; ciphertext_b64 = text });
}

abbrev live : Client
live = record init { user_id = some "al"; relay = some 0; conn_state = connected; next_socket = 1 }

abbrev waiting : Client
waiting = record init {
  user_id = some "al";
  reconnect_timer = some 2000;
  reconnect_attempt = 2;
  next_socket = 1;
}

abbrev opening_access : Client
opening_access = record init { user_id = some "al"; tasks = access ∷ [] }

abbrev letter : Envelope
letter = record {
  id = "e1";
  submission = record {
    recipient_id = "al";
    recipient_device = 1;
    sender_id = "bob";
    sender_device = 7;
    type = whisper;
    ciphertext = "x";
    timestamp = 5;
  };
}

waiting-IsWaiting : IsWaiting 1 waiting
waiting-IsWaiting = (refl, refl, refl, refl, refl, refl, refl)

close_is_final_example :
    let c' =
      run services verdict_of
        (close (record live { tasks = opening 0 ∷ [] }))
        (answered 3 0 rejected ∷ retry_due ∷ socket_gone 0 ∷ []) in
    (c'.relay ≡ none) × (c'.reconnect_timer ≡ none) × (c'.conn_state ≡ offline)
close_is_final_example =
    close_is_final services verdict_of (record live { tasks = opening 0 ∷ [] })
      (answered 3 0 rejected ∷ retry_due ∷ socket_gone 0 ∷ []) (refl, tt) (refl, (refl, (refl, tt)))

retries_lem_example :
    let c' = run services verdict_of waiting (failures services verdict_of 9 "t" 3) in
    let c'' = run services verdict_of c' (success services verdict_of 9 "t") in
    (c'.reconnect_timer ≡ some (backoff_ms (3 + 1)))
    × (1000 ≤ backoff_ms (3 + 1))
    × (backoff_ms 1 ≤ backoff_ms (3 + 1))
    × (backoff_ms (3 + 1) ≤ 15000)
    × (c''.conn_state ≡ connected)
    × (c''.relay ≡ some c'.next_socket)
    × (c''.reconnect_attempt ≡ 0)
    × (c''.reconnect_timer ≡ none)
retries_lem_example =
    retries_lem services verdict_of 9 "t" 3 1 waiting (ne_of_eq_false "t" "" refl) waiting-IsWaiting

refresh_failure_example :
    let c' =
      run services verdict_of waiting
        (retry_due ∷ answered 9 0 rejected ∷ retry_due ∷ message 0 (deliver letter) ∷ []) in
    (c'.relay ≡ none) × (c'.reconnect_timer ≡ none) × (c'.conn_state ≡ offline)
refresh_failure_example =
    refresh_failure services verdict_of 1 9 waiting (retry_due ∷ message 0 (deliver letter) ∷ [])
      waiting-IsWaiting (refl, (refl, tt))

-- The receipts of two envelopes, of which one is known.
abbrev news : List (String × Receipt)
news = ("e1", Receipt.delivered) ∷ ("e2", Receipt.read) ∷ ("e1", Receipt.read) ∷ []

ack_lem_example :
    (run services verdict_of live (message 0 (ack "e1" 5 (some "r1")) ∷ statuses 0 news)).effects
    ≡ live.effects ++ status_shown "r1" MessageStatus.sent ∷ shown_for "e1" "r1" news
unfolding get
ack_lem_example =
    ack_lem services verdict_of live 0 5 "e1" "r1" news (ne_of_eq_false "r1" "" refl)
      (inl refl, (inr (ne_of_eq_false "e2" "e1" refl, refl), (inl refl, tt)))
