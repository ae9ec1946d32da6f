-- ===== src/Client/Events.antt =====
-- The events that a client sees: calls of its methods, its socket, its timer, and the answers that
-- its waiting methods get.
use hwfa.Common.{ℕ, zero, suc, Option, none, some, List, [], ◌∷◌, String}
use hwfa.Models.{RelayMessage, ScamVerdict}
use hwfa.Client.{Client, Task, access, opening, decrypting}
use hwfa.Client.Connection.{
  connect_relay, access_granted, access_failed, socket_opened, connect_resolved, connect_rejected,
  handle_socket_closed, reconnect_fired, resume, otp_requested, otp_confirmed, onboarded,
  register_push_token, close, account_deleted,
}
use hwfa.Client.Messages.{Services, send_text, send_read_receipt, delivered, on_message}

pub data Answer : Type 0 where
  token : Option String → Answer
  rejected opened : Answer
  plaintext : String → Answer

pub data Event : Type 0 where
  connect_asked retry_due closed_by_user deleted confirmed : Event
  resumed : String → ℕ → Event
  requested registered : ℕ → String → Event
  push_registered : String → Event
  text_sent : ℕ → String → String → String → Event
  read_sent : String → String → Event
  socket_open socket_gone : ℕ → Event
  message : ℕ → RelayMessage → Event
  -- The method that waits at this place of the queue gets its answer, at a time.
  answered : ℕ → ℕ → Answer → Event

abbrev pub task_at : List Task → ℕ → Option Task
task_at [] i = none
task_at (t ∷ ts) zero = some t
task_at (t ∷ ts) (suc i) = task_at ts i

abbrev pub drop_task : List Task → ℕ → List Task
drop_task [] i = []
drop_task (t ∷ ts) zero = ts
drop_task (t ∷ ts) (suc i) = t ∷ drop_task ts i

module _ (services : Services) (analyze : String → ScamVerdict) where
  -- A method gets no answer of another kind than the one it waits for.
  unfoldable pub continue : Client → ℕ → Task → Answer → Client
  continue c now access (token t) = access_granted c t
  continue c now access rejected = access_failed c
  continue c now (opening socket) opened = connect_resolved c
  continue c now (opening socket) rejected = connect_rejected c
  continue c now (decrypting env) (plaintext text) = delivered analyze c now env (some text)
  continue c now (decrypting env) rejected = delivered analyze c now env none
  continue c now _ _ = c

  unfoldable pub answer_at : Client → ℕ → ℕ → Answer → Client
  unfolding continue
  answer_at c now i answer = elim (task_at c.tasks i) [
    | none ↦ c
    | some task ↦ continue (record c { tasks = drop_task c.tasks i }) now task answer
  ]

  unfoldable pub step : Client → Event → Client
  step c connect_asked = connect_relay c
  step c retry_due = reconnect_fired c
  step c closed_by_user = close c
  step c deleted = account_deleted c
  step c confirmed = otp_confirmed c
  step c (resumed user_id device_id) = resume c user_id device_id
  step c (requested device_id user_id) = otp_requested c device_id user_id
  step c (registered device_id user_id) = onboarded c device_id user_id
  step c (push_registered t) = register_push_token c t
  step c (text_sent now peer text ref) = send_text services c now peer text ref
  step c (read_sent peer envelope_id) = send_read_receipt c peer envelope_id
  step c (socket_open socket) = socket_opened c
  step c (socket_gone socket) = handle_socket_closed c
  step c (message socket msg) = on_message c socket msg
  step c (answered now i answer) = answer_at c now i answer

  unfoldable pub run : Client → List Event → Client
  run c [] = c
  run c (e ∷ es) = run (step c e) es
