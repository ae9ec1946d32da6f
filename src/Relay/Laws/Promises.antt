-- ===== src/Relay/Laws/Promises.antt =====
-- The promises that `connect` returns.
use hwfa.Common.{
  ℕ, suc, ◌+◌, ◌≤◌, ◌<◌, true, false, Option, List, [], ◌∷◌, ◌++◌, ◌≡◌, arith, String, nat_eq, ltb,
  All, All_imp, Bool-cases, Option-cases, inl, inr, if◌then◌else◌,
}
use hwfa.Models.{RelayMessage}
use hwfa.Relay.{
  RelayConnection, Output, resolved, rejected, Event, connected, closed_by_user, text_came,
  socket_open, socket_failed, socket_gone, send, send_envelope, send_read_receipt,
  register_push_token, on_message, on_text, without, waits, settle, connect, on_open, on_error,
  on_close, close, listening, step, run,
}

-- How often the promise of a socket is settled.
abbrev pub settles : ℕ → Output → ℕ
settles n (resolved m) = if nat_eq n m then 1 else 0
settles n (rejected m) = if nat_eq n m then 1 else 0
settles n _ = 0

abbrev pub settled : ℕ → List Output → ℕ
settled n [] = 0
settled n (o ∷ os) = settles n o + settled n os

-- The sockets that wait were made.
abbrev pub IsMade : RelayConnection → Type 0
IsMade r = All (λ m. m < r.next_socket) r.pending

-- How often it can still be settled.
budget : ℕ → RelayConnection → ℕ
budget n r = if waits n r.pending then 1 else if ltb n r.next_socket then 0 else 1

waits-without :
    (n m : ℕ) (ms : List ℕ) → waits n (without m ms) ≡ (if nat_eq n m then false else waits n ms)
waits-without n m [] = ground arith
waits-without n m (k ∷ ms) = ground (arith, waits-without n m ms)

All-without : (k m : ℕ) (ms : List ℕ) → All (λ i. i < k) ms → All (λ i. i < k) (without m ms)
All-without k m [] h = tt
All-without k m (i ∷ ms) (h, hs) = ground (arith, All-without k m ms hs)

waits_made : (n k : ℕ) (ms : List ℕ) → All (λ i. i < k) ms → waits n ms ≡ true → n < k
waits_made n k [] h e = cc
waits_made n k (i ∷ ms) (h, hs) e = ground (arith, waits_made n k ms hs)

settled-append : (n : ℕ) (os ps : List Output) → settled n (os ++ ps) ≡ settled n os + settled n ps
settled-append n [] ps = omega arith
settled-append n (o ∷ os) ps = omega (arith, settled-append n os ps)

step-budget :
    (encode : String → String) (parse : String → Option RelayMessage) (n : ℕ) (r : RelayConnection)
    (e : Event)
    → IsMade r
    → let (os, r') = step encode parse r e in settled n os + budget n r' ≤ budget n r
unfolding step budget connect on_open on_error on_close close on_text on_message send send_envelope
    send_read_receipt register_push_token settle
step-budget encode parse n r connected h = ground (arith, waits_made n r.next_socket r.pending h)
step-budget encode parse n r (socket_open m) h =
    ground (arith, waits-without n m r.pending, waits_made n r.next_socket r.pending h)
step-budget encode parse n r (socket_failed m) h =
    ground (arith, waits-without n m r.pending, waits_made n r.next_socket r.pending h)
step-budget encode parse n r e h = ground arith

listening-IsMade :
    (r : RelayConnection) (result : List Output × RelayConnection)
    → IsMade result.1
    → IsMade r
    → IsMade (listening r result).1
listening-IsMade r result h k = elim (Bool-cases r.can_listen) [ inl e ↦ rw e h | inr e ↦ rw e k ]

step-IsMade :
    (encode : String → String) (parse : String → Option RelayMessage) (r : RelayConnection)
    (e : Event)
    → IsMade r
    → IsMade (step encode parse r e).1
unfolding step connect on_open on_error close settle
step-IsMade encode parse r connected h =
    let more =
      All_imp {P = λ m. m < r.next_socket} {Q = λ m. m < suc r.next_socket} (λ m q. omega arith)
        r.pending h in
    elim (Bool-cases r.can_listen) [
      | inl e ↦ rw (e, connect) (omega arith, more)
      | inr e ↦ rw (e, connect) more
    ]
step-IsMade encode parse r (socket_open m) h =
    listening-IsMade r (on_open r m) (All-without r.next_socket m r.pending h) h
step-IsMade encode parse r (socket_failed m) h =
    listening-IsMade r (on_error r m) (All-without r.next_socket m r.pending h) h
step-IsMade encode parse r (text_came t) h = listening-IsMade r (on_text parse r t, r) h h
step-IsMade encode parse r socket_gone h = listening-IsMade r (on_close r, r) h h
step-IsMade encode parse r closed_by_user h = elim (Option-cases r.ws) [
  | inl e ↦ rw (e, close) h
  | inr (socket, e) ↦ rw (e, close) h
]
step-IsMade encode parse r e h = ground arith

run-budget :
    (encode : String → String) (parse : String → Option RelayMessage) (n : ℕ) (r : RelayConnection)
    (es : List Event)
    → IsMade r
    → settled n (run encode parse r es).0 ≤ budget n r
unfolding run
run-budget encode parse n r [] h = omega arith
run-budget encode parse n r (e ∷ es) h =
    let (os, r') = step encode parse r e in
    omega (
      arith,
      settled-append n os (run encode parse r' es).0,
      step-budget encode parse n r e h,
      run-budget encode parse n r' es (step-IsMade encode parse r e h),
    )

-- However often a connection connects and whatever its sockets report, in any order and as often
-- as they like, the promise of a socket is resolved or rejected at most once.
pub run_settles_once :
    (encode : String → String) (parse : String → Option RelayMessage) (n : ℕ) (r : RelayConnection)
    (es : List Event)
    → IsMade r
    → settled n (run encode parse r es).0 ≤ 1
unfolding budget
run_settles_once encode parse n r es h = ground (arith, run-budget encode parse n r es h)
