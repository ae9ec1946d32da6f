-- ===== src/Client/Laws/Down.antt =====
-- What a close and a failed refresh leave behind.
use hwfa.Common.{
  ℕ, zero, suc, Bool, true, false, none, some, List, [], ◌∷◌, ◌++◌, ◌≡◌, refl, arith, String, All,
  All-append, Option-cases, inl, inr,
}
use hwfa.Models.{
  ScamVerdict, Envelope, RelayMessage, deliver, ack, receipt, status, send, register_push,
}
use hwfa.Client.{offline, Client, Task, access, opening, decrypting}
use hwfa.Client.Connection.{
  set_connection_state, schedule_reconnect, handle_socket_closed, connect_relay, register_push_if,
  connect_rejected, reconnect_fired, otp_requested, register_push_token, account_deleted, close,
  close_socket,
}
use hwfa.Client.Messages.{
  Services, delivered, send_text, send_read_receipt, on_message, handle_ack, handle_status,
}
use hwfa.Client.Events.{
  Answer, token, rejected, opened, plaintext, Event, retry_due, socket_open, socket_gone,
  closed_by_user, deleted, requested, connect_asked, confirmed, resumed, registered,
  push_registered, text_sent, read_sent, message, answered, task_at, drop_task, continue, answer_at,
  step, run,
}
use hwfa.Client.Laws.Reconnect.{IsWaiting}

-- What may wait while the client is down: after a close, also for a socket.
abbrev pub is_settled : Bool → Task → Bool
is_settled closed access = false
is_settled closed (opening socket) = closed
is_settled closed (decrypting env) = true

-- No call of a method that connects, and no socket that opens; one that goes only after a close.
abbrev pub is_passive : Bool → Event → Bool
is_passive closed retry_due = true
is_passive closed closed_by_user = closed
is_passive closed deleted = closed
is_passive closed (socket_gone socket) = closed
is_passive closed (requested device_id user_id) = true
is_passive closed (push_registered t) = true
is_passive closed (text_sent now peer text ref) = true
is_passive closed (read_sent peer envelope_id) = true
is_passive closed (message socket msg) = true
is_passive closed (answered now i (token t)) = true
is_passive closed (answered now i rejected) = true
is_passive closed (answered now i opened) = false
is_passive closed (answered now i (plaintext text)) = true
is_passive closed _ = false

abbrev pub IsDown : Bool → Client → Type 0
IsDown closed c =
    (c.relay ≡ none)
    × (c.conn_state ≡ offline)
    × (c.reconnect_timer ≡ none)
    × (c.intentional_close ≡ closed)
    × All (λ t. is_settled closed t ≡ true) c.tasks

task_at_settled :
    (closed : Bool) (ts : List Task) (i : ℕ) (t : Task)
    → All (λ t. is_settled closed t ≡ true) ts
    → task_at ts i ≡ some t
    → is_settled closed t ≡ true
task_at_settled closed [] i t h e = cc
task_at_settled closed (u ∷ ts) zero t (h, hs) e = ground (arith, h, e)
task_at_settled closed (u ∷ ts) (suc i) t (h, hs) e = task_at_settled closed ts i t hs e

drop_task_settled :
    (closed : Bool) (ts : List Task) (i : ℕ)
    → All (λ t. is_settled closed t ≡ true) ts
    → All (λ t. is_settled closed t ≡ true) (drop_task ts i)
drop_task_settled closed [] i h = tt
drop_task_settled closed (u ∷ ts) zero (h, hs) = hs
drop_task_settled closed (u ∷ ts) (suc i) (h, hs) = (h, drop_task_settled closed ts i hs)

continue-IsDown :
    (services : Services) (analyze : String → ScamVerdict) (closed : Bool) (c : Client) (now i : ℕ)
    (t : Task) (a : Answer)
    → IsDown closed c
    → is_settled closed t ≡ true
    → is_passive closed (answered now i a) ≡ true
    → IsDown closed (continue services analyze c now t a)
unfolding continue connect_rejected set_connection_state schedule_reconnect delivered
continue-IsDown services analyze closed c now i access a d s p = cc
continue-IsDown services analyze closed c now i (opening socket) (token t) d s p = d
continue-IsDown services analyze closed c now i (opening socket) rejected (r, o, tm, ic, ts) s p =
    (ground arith, ground arith, ground arith, ground arith, ground (arith, ts))
continue-IsDown services analyze closed c now i (opening socket) opened d s p = cc
continue-IsDown services analyze closed c now i (opening socket) (plaintext text) d s p = d
continue-IsDown services analyze closed c now i (decrypting env) (token t) d s p = d
continue-IsDown services analyze closed c now i (decrypting env) rejected d s p = d
continue-IsDown services analyze closed c now i (decrypting env) opened d s p = d
continue-IsDown services analyze closed c now i (decrypting env) (plaintext text) (r, o, tm, ic, ts)
      s p =
    (ground arith, ground arith, ground arith, ground arith, ground (arith, ts))

answer_at-IsDown :
    (services : Services) (analyze : String → ScamVerdict) (closed : Bool) (c : Client) (now i : ℕ)
    (a : Answer)
    → IsDown closed c
    → is_passive closed (answered now i a) ≡ true
    → IsDown closed (answer_at services analyze c now i a)
unfolding answer_at
answer_at-IsDown services analyze closed c now i a (r, o, tm, ic, ts) p =
    elim (Option-cases (task_at c.tasks i)) [
      | inl e ↦ rw (e, answer_at) (r, o, tm, ic, ts)
      | inr (t, e) ↦
          rw (e, answer_at)
            (continue-IsDown services analyze closed (record c { tasks = drop_task c.tasks i }) now
              i t a (r, o, tm, ic, drop_task_settled closed c.tasks i ts)
              (task_at_settled closed c.tasks i t ts e) p)
    ]

tasks-deliver :
    (c : Client) (socket : ℕ) (env : Envelope)
    → (on_message c socket (deliver env)).tasks ≡ c.tasks ++ decrypting env ∷ []
unfolding on_message
tasks-deliver c socket env = ground arith

on_message-IsDown :
    (closed : Bool) (c : Client) (socket : ℕ) (msg : RelayMessage)
    → IsDown closed c
    → IsDown closed (on_message c socket msg)
unfolding on_message handle_ack handle_status
on_message-IsDown closed c socket (deliver env) (r, o, tm, ic, ts) = (
  ground arith,
  ground arith,
  ground arith,
  ground arith,
  rw (tasks-deliver c socket env)
      (All-append (λ t. is_settled closed t ≡ true) c.tasks (decrypting env ∷ []) ts (refl, tt)),
)
on_message-IsDown closed c socket (ack envelope_id at none) d = d
on_message-IsDown closed c socket (ack envelope_id at (some ref)) (r, o, tm, ic, ts) =
    (ground arith, ground arith, ground arith, ground arith, ground (arith, ts))
on_message-IsDown closed c socket (status envelope_id s) (r, o, tm, ic, ts) =
    (ground arith, ground arith, ground arith, ground arith, ground (arith, ts))
on_message-IsDown closed c socket (send s ref) d = d
on_message-IsDown closed c socket (receipt envelope_id s target device) d = d
on_message-IsDown closed c socket (register_push t) d = d

tasks-close : (c : Client) → (close c).tasks ≡ c.tasks
unfolding close close_socket set_connection_state
tasks-close c = ground arith

close-IsDown : (c : Client) → All (λ t. is_settled true t ≡ true) c.tasks → IsDown true (close c)
unfolding close close_socket set_connection_state
close-IsDown c ts = (ground arith, ground arith, ground arith, ground arith, rw (tasks-close c) ts)

step-IsDown :
    (services : Services) (analyze : String → ScamVerdict) (closed : Bool) (c : Client) (e : Event)
    → IsDown closed c
    → is_passive closed e ≡ true
    → IsDown closed (step services analyze c e)
unfolding step reconnect_fired handle_socket_closed otp_requested register_push_token
    register_push_if send_text send_read_receipt account_deleted schedule_reconnect
    set_connection_state
step-IsDown services analyze closed c retry_due (r, o, tm, ic, ts) p =
    (ground arith, ground arith, ground arith, ground arith, ground (arith, ts))
step-IsDown services analyze true c closed_by_user (r, o, tm, ic, ts) p = close-IsDown c ts
step-IsDown services analyze true c deleted (r, o, tm, ic, ts) p =
    close-IsDown (record c { user_id = none }) ts
step-IsDown services analyze true c (socket_gone socket) (r, o, tm, ic, ts) p =
    (ground arith, ground arith, ground arith, ground arith, ground (arith, ts))
step-IsDown services analyze false c closed_by_user d p = cc
step-IsDown services analyze false c deleted d p = cc
step-IsDown services analyze false c (socket_gone socket) d p = cc
step-IsDown services analyze closed c (requested device_id user_id) d p = d
step-IsDown services analyze closed c (push_registered t) (r, o, tm, ic, ts) p =
    (ground arith, ground arith, ground arith, ground arith, ground (arith, ts))
step-IsDown services analyze closed c (text_sent now peer text ref) (r, o, tm, ic, ts) p =
    (ground arith, ground arith, ground arith, ground arith, ground (arith, ts))
step-IsDown services analyze closed c (read_sent peer envelope_id) (r, o, tm, ic, ts) p =
    (ground arith, ground arith, ground arith, ground arith, ground (arith, ts))
step-IsDown services analyze closed c (message socket msg) d p =
    on_message-IsDown closed c socket msg d
step-IsDown services analyze closed c (answered now i a) d p =
    answer_at-IsDown services analyze closed c now i a d p
step-IsDown services analyze closed c connect_asked d p = cc
step-IsDown services analyze closed c confirmed d p = cc
step-IsDown services analyze closed c (resumed user_id device_id) d p = cc
step-IsDown services analyze closed c (registered device_id user_id) d p = cc
step-IsDown services analyze closed c (socket_open socket) d p = cc

run-IsDown :
    (services : Services) (analyze : String → ScamVerdict) (closed : Bool) (c : Client)
    (es : List Event)
    → IsDown closed c
    → All (λ e. is_passive closed e ≡ true) es
    → IsDown closed (run services analyze c es)
unfolding run
run-IsDown services analyze closed c [] d p = d
run-IsDown services analyze closed c (e ∷ es) d (p, ps) =
    run-IsDown services analyze closed (step services analyze c e) es
      (step-IsDown services analyze closed c e d p) ps

-- After `close`, while nothing waits for an access token, no event other than a call that connects
-- or a socket that opens brings the connection back: there is no socket, no timer, and the state
-- shown is `offline`, however late timers, answers, messages and close events come.
pub close_is_final :
    (services : Services) (analyze : String → ScamVerdict) (c : Client) (es : List Event)
    → All (λ t. is_settled true t ≡ true) c.tasks
    → All (λ e. is_passive true e ≡ true) es
    → let c' = run services analyze (close c) es in
      (c'.relay ≡ none) × (c'.reconnect_timer ≡ none) × (c'.conn_state ≡ offline)
close_is_final services analyze c es ts p =
    let (r, o, tm, _, _) = run-IsDown services analyze true (close c) es (close-IsDown c ts) p in
    (r, tm, o)

refresh_failure-IsDown :
    (services : Services) (analyze : String → ScamVerdict) (n now : ℕ) (c : Client)
    → IsWaiting n c
    → IsDown false (run services analyze c (retry_due ∷ answered now 0 rejected ∷ []))
unfolding run step reconnect_fired connect_relay answer_at continue
refresh_failure-IsDown services analyze n now c (u, r, ts, i, o, tm, a) =
    (ground arith, ground arith, ground arith, ground arith, ground (arith, ts))

-- If refreshing the access token fails when the retry timer fires, there is no further retry: with
-- no timer, no socket and the state `offline`, the client stays so through any texts and receipts
-- that it is asked to send, requests for a code, push tokens, messages, late timers, and answers
-- other than that a connection has opened. (Left out are calls that connect, close or delete, and
-- the open and close events of an old socket: a close event would set the timer again.)
pub refresh_failure :
    (services : Services) (analyze : String → ScamVerdict) (n now : ℕ) (c : Client)
    (es : List Event)
    → IsWaiting n c
    → All (λ e. is_passive false e ≡ true) es
    → let c' = run services analyze c (retry_due ∷ answered now 0 rejected ∷ es) in
      (c'.relay ≡ none) × (c'.reconnect_timer ≡ none) × (c'.conn_state ≡ offline)
unfolding run step reconnect_fired connect_relay answer_at continue
refresh_failure services analyze n now c es w p =
    let (r, o, tm, _, _) =
      run-IsDown services analyze false
        (run services analyze c (retry_due ∷ answered now 0 rejected ∷ [])) es
        (refresh_failure-IsDown services analyze n now c w) p in
    (r, tm, o)
