-- ===== src/Client/Laws/Reconnect.antt =====
-- The retries after a drop.
use hwfa.Common.{
  ℕ, zero, suc, ◌+◌, ◌≤◌, true, false, none, some, List, [], ◌∷◌, ◌++◌, ◌≡◌, ◌≢◌, arith, String,
  is_some, ◌==◌, eq_iff,
}
use hwfa.Models.{ScamVerdict}
use hwfa.Client.{connected, offline, Client}
use hwfa.Client.Connection.{
  backoff_ms, set_connection_state, schedule_reconnect, connect_relay, access_granted,
  socket_opened, register_push_if, connect_resolved, connect_rejected, reconnect_fired,
}
use hwfa.Client.Messages.{Services}
use hwfa.Client.Events.{
  token, rejected, opened, Event, retry_due, socket_open, answered, continue, answer_at, step, run,
}

-- A dropped client that will try again after `backoff_ms n`.
abbrev pub IsWaiting : ℕ → Client → Type 0
IsWaiting n c =
    (is_some c.user_id ≡ true)
    × (c.relay ≡ none)
    × (c.tasks ≡ [])
    × (c.intentional_close ≡ false)
    × (c.conn_state ≡ offline)
    × (c.reconnect_timer ≡ some (backoff_ms n))
    × (c.reconnect_attempt ≡ suc n)

zero_add : (n : ℕ) → zero + n ≡ n
zero_add n = omega arith

suc_add : (k n : ℕ) → suc k + n ≡ k + suc n
suc_add k n = omega arith

module _ (services : Services) (analyze : String → ScamVerdict) (now : ℕ) (t : String) where
  -- A retry whose token is granted and whose socket fails.
  abbrev pub failing : List Event
  failing = retry_due ∷ answered now 0 (token (some t)) ∷ answered now 0 rejected ∷ []

  abbrev pub failures : ℕ → List Event
  failures zero = []
  failures (suc k) = failing ++ failures k

  abbrev pub success : List Event
  success = retry_due ∷ answered now 0 (token (some t)) ∷ socket_open 0 ∷ answered now 0 opened ∷ []

  failing-IsWaiting :
      (n : ℕ) (c : Client)
      → t == "" ≡ false
      → IsWaiting n c
      → IsWaiting (suc n) (run services analyze c failing)
  unfolding run step reconnect_fired connect_relay answer_at continue access_granted
      connect_rejected set_connection_state schedule_reconnect
  failing-IsWaiting n c given (u, r, ts, i, o, tm, a) = (
    ground arith,
    ground arith,
    ground arith,
    ground arith,
    ground arith,
    ground arith,
    ground arith,
  )

  failures-IsWaiting :
      (k n : ℕ) (c : Client)
      → t == "" ≡ false
      → IsWaiting n c
      → IsWaiting (k + n) (run services analyze c (failures k))
  unfolding run
  failures-IsWaiting zero n c given w = rw (zero_add n) w
  failures-IsWaiting (suc k) n c given w = rw (suc_add k n) (
      failures-IsWaiting k (suc n) (run services analyze c failing) given
        (failing-IsWaiting n c given w))

  success_lem :
      (n : ℕ) (c : Client)
      → t == "" ≡ false
      → IsWaiting n c
      → let c' = run services analyze c success in
        (c'.conn_state ≡ connected)
        × (c'.relay ≡ some c.next_socket)
        × (c'.reconnect_attempt ≡ 0)
        × (c'.reconnect_timer ≡ none)
  unfolding run step reconnect_fired connect_relay answer_at continue access_granted socket_opened
      connect_resolved register_push_if set_connection_state
  success_lem n c given (u, r, ts, i, o, tm, a) = ground arith

pub backoff_ms_bounds :
    (n m : ℕ)
    → n ≤ m
    → (1000 ≤ backoff_ms m) × (backoff_ms n ≤ backoff_ms m) × (backoff_ms m ≤ 15000)
backoff_ms_bounds n m h = ground arith

-- A client that waits for its retry number n, gets an access token that is not empty each time, and
-- whose next k attempts fail at the socket, waits
-- with the delay of number n + k, which is between 1 and 15 seconds and not below that of number n;
-- an attempt that succeeds then connects it, and the next drop starts again at the first delay.
pub retries_lem :
    (services : Services) (analyze : String → ScamVerdict) (now : ℕ) (t : String) (k n : ℕ)
    (c : Client)
    → t ≢ ""
    → IsWaiting n c
    → let c' = run services analyze c (failures services analyze now t k) in
      let c'' = run services analyze c' (success services analyze now t) in
      (c'.reconnect_timer ≡ some (backoff_ms (k + n)))
      × (1000 ≤ backoff_ms (k + n))
      × (backoff_ms n ≤ backoff_ms (k + n))
      × (backoff_ms (k + n) ≤ 15000)
      × (c''.conn_state ≡ connected)
      × (c''.relay ≡ some c'.next_socket)
      × (c''.reconnect_attempt ≡ 0)
      × (c''.reconnect_timer ≡ none)
retries_lem services analyze now t k n c ne w =
    let given : t == "" ≡ false = ground (arith, ne, eq_iff t "") in
    let c' = run services analyze c (failures services analyze now t k) in
    let w' = failures-IsWaiting services analyze now t k n c given w in
    let (low, up, high) = backoff_ms_bounds n (k + n) (omega arith) in
    let (_, _, _, _, _, timer, _) = w' in
    let (state, relay, attempt, rest) = success_lem services analyze now t (k + n) c' given w' in
    (timer, low, up, high, state, relay, attempt, rest)
