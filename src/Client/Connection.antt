-- ===== src/Client/Connection.antt =====
-- The relay connection and its retries (client.ts: connectRelay, setConnectionState,
-- handleSocketClosed, scheduleReconnect, requestOtp, confirmOtp, onboard, linkWithCode, resume,
-- deleteAccount, registerPushToken, close).
use hwfa.Common.{
  ◌==◌, ℕ, zero, suc, ◌+◌, Bool, true, false, not, ◌||◌, Option, none, some, ◌∷◌, String, is_some,
  ltb, if◌then◌else◌,
}
use hwfa.Models.{register_push}
use hwfa.Client.{
  ConnectionState, connecting, connected, offline, Client, access, opening, socket_made,
  socket_closed, sent, state_shown, effect, wait,
}

-- `RECONNECT_BACKOFF_MS`, whose last value stands for all later attempts.
abbrev pub backoff_ms : ℕ → ℕ
backoff_ms zero = 1000
backoff_ms (suc zero) = 2000
backoff_ms (suc (suc zero)) = 5000
backoff_ms (suc (suc (suc zero))) = 10000
backoff_ms (suc (suc (suc (suc n)))) = 15000

abbrev pub same_state : ConnectionState → ConnectionState → Bool
same_state connecting connecting = true
same_state connected connected = true
same_state offline offline = true
same_state _ _ = false

unfoldable pub set_connection_state : Client → ConnectionState → Client
set_connection_state c state =
    if same_state c.conn_state state
    then c
    else effect (record c { conn_state = state }) (state_shown state)

unfoldable pub schedule_reconnect : Client → Client
schedule_reconnect c =
    if is_some c.reconnect_timer || c.intentional_close || not (is_some c.user_id)
    then c
    else record c {
      reconnect_timer = some (backoff_ms c.reconnect_attempt);
      reconnect_attempt = c.reconnect_attempt + 1;
    }

-- The socket does not tell which one it is.
unfoldable pub handle_socket_closed : Client → Client
handle_socket_closed c =
    if c.intentional_close
    then record c { relay = none }
    else schedule_reconnect (set_connection_state (record c { relay = none }) offline)

-- `connectRelay` up to `ensureAccess`; it throws without an account.
unfoldable pub connect_relay : Client → Client
connect_relay c = if is_some c.user_id then wait c access else c

-- `ensureAccess` has returned. It throws without a token.
unfoldable pub access_granted : Client → Option String → Client
access_granted c none = c
access_granted c (some token) = if token == "" then c else (elim c.relay [
  | some socket ↦ c
  | none ↦
      let c' = set_connection_state (record c { intentional_close = false }) connecting in
      wait
        (effect (record c' { relay = some c'.next_socket; next_socket = suc c'.next_socket })
          (socket_made c'.next_socket))
        (opening c'.next_socket)
])

-- `ensureAccess` has thrown: `connectRelay` throws before its own `try`.
abbrev pub access_failed : Client → Client
access_failed c = c

-- `onOpen`.
unfoldable pub socket_opened : Client → Client
socket_opened c = set_connection_state (record c { reconnect_attempt = 0 }) connected

unfoldable pub register_push_if : Client → Option String → Client
register_push_if c none = c
register_push_if c (some token) = elim c.relay [
  | none ↦ c
  | some socket ↦ effect c (sent socket (register_push token))
]

-- What follows `await this.relay.connect()`; `maintainPreKeys` is not modelled.
unfoldable pub connect_resolved : Client → Client
connect_resolved c = register_push_if (set_connection_state c connected) c.push_token

unfoldable pub connect_rejected : Client → Client
connect_rejected c = schedule_reconnect (set_connection_state (record c { relay = none }) offline)

unfoldable pub reconnect_fired : Client → Client
reconnect_fired c = elim c.reconnect_timer [
  | none ↦ c
  | some delay ↦ connect_relay (record c { reconnect_timer = none })
]

unfoldable pub resume : Client → String → ℕ → Client
resume c user_id device_id =
    connect_relay
      (record c { user_id = some user_id; device_id = if ltb 0 device_id then device_id else 1 })

-- `requestOtp`, once Discovery has registered the keys of this device.
unfoldable pub otp_requested : Client → ℕ → String → Client
otp_requested c device_id user_id = record c {
  device_id = device_id;
  pending_user_id = some user_id;
}

-- `confirmOtp`, once Discovery has accepted the code; it throws if none was requested.
unfoldable pub otp_confirmed : Client → Client
otp_confirmed c = elim c.pending_user_id [
  | none ↦ c
  | some user_id ↦ connect_relay (record c { user_id = some user_id; pending_user_id = none })
]

-- `onboard` and `linkWithCode`, once Discovery has given this device its id.
unfoldable pub onboarded : Client → ℕ → String → Client
onboarded c device_id user_id =
    connect_relay (record c { device_id = device_id; user_id = some user_id })

unfoldable pub register_push_token : Client → String → Client
register_push_token c token = register_push_if (record c { push_token = some token }) (some token)

unfoldable pub close_socket : Client → Client
close_socket c = elim c.relay [
  | none ↦ c
  | some socket ↦
      effect (record c { relay = none; closed = socket ∷ c.closed }) (socket_closed socket)
]

unfoldable pub close : Client → Client
close c =
    set_connection_state
      (close_socket (record c { intentional_close = true; reconnect_timer = none })) offline

-- `deleteAccount`, once Discovery has deleted it.
unfoldable pub account_deleted : Client → Client
account_deleted c = close (record c { user_id = none })
