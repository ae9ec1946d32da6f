-- ===== src/Client/Laws/Races.antt =====
-- Close events that come late, and tokens that do.
use hwfa.Common.{ℕ, true, false, none, some, [], ◌∷◌, ◌≡◌, arith, String, is_some, ◌==◌}
use hwfa.Models.{ScamVerdict}
use hwfa.Client.{connecting, offline, Client, access}
use hwfa.Client.Connection.{
  set_connection_state, schedule_reconnect, handle_socket_closed, access_granted, account_deleted,
  close, close_socket,
}
use hwfa.Client.Messages.{Services}
use hwfa.Client.Events.{
  token, socket_gone, deleted, answered, task_at, continue, answer_at, step, run,
}

-- The close event of any socket, also of one that has been replaced, drops the live one: the client
-- forgets it, shows `offline` and has a timer for another connection.
pub stale_close :
    (services : Services) (analyze : String → ScamVerdict) (c : Client) (old live : ℕ)
    → c.relay ≡ some live
    → c.intentional_close ≡ false
    → is_some c.user_id ≡ true
    → let c' = step services analyze c (socket_gone old) in
      (c'.relay ≡ none) × (c'.conn_state ≡ offline) × (is_some c'.reconnect_timer ≡ true)
unfolding step handle_socket_closed schedule_reconnect set_connection_state
stale_close services analyze c old live r i u = (ground arith, ground arith, ground arith)

-- A `close` while `connectRelay` waits for the access token does not hold: when a token that is not empty comes, a
-- new socket is opened and closing is no longer intended, also if the account has been deleted.
pub close_undone :
    (services : Services) (analyze : String → ScamVerdict) (c : Client) (now i : ℕ) (t : String)
    → task_at c.tasks i ≡ some access
    → t == "" ≡ false
    → let c' = run services analyze c (deleted ∷ answered now i (token (some t)) ∷ []) in
      (c'.relay ≡ some c.next_socket)
      × (c'.conn_state ≡ connecting)
      × (c'.intentional_close ≡ false)
      × (c'.user_id ≡ none)
unfolding run step account_deleted answer_at continue access_granted close close_socket
    set_connection_state
close_undone services analyze c now i t e given =
    (ground arith, ground arith, ground arith, ground arith)
