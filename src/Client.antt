-- ===== src/Client.antt =====
-- The client (packages/client/src/client.ts, class HwfaClient, and relay.ts): its state. The relay
-- socket is a number, each new socket the next one. What the client shows to its subscribers and
-- sends to the relay is a list of effects, oldest first. Discovery and the crypto provider are
-- not modelled: their answers are arguments.
pub mod Connection
pub mod Messages
pub mod Events
pub mod Linking
pub mod Discover
pub mod Laws
use hwfa.Common.{ℕ, Bool, true, false, Option, none, some, List, [], ◌∷◌, ◌++◌, String}
use hwfa.Common.Dict.{Dict}
use hwfa.Models.{Envelope, MessageStatus, RelayMessage, ScamVerdict}

pub record IncomingText : Type 0 where
  pub from_user_id : String
  pub from_device : ℕ
  pub text : String
  pub received_at : ℕ
  pub envelope_id : String
  pub verdict : ScamVerdict

pub data ConnectionState : Type 0 where
  connecting connected offline : ConnectionState

-- A method that waits: `connectRelay` for the access token or for its socket to open, and
-- `handleDeliver` for the plaintext.
pub data Task : Type 0 where
  access : Task
  opening : ℕ → Task
  decrypting : Envelope → Task

pub data Effect : Type 0 where
  socket_made : ℕ → Effect
  socket_closed : ℕ → Effect
  sent : ℕ → RelayMessage → Effect
  state_shown : ConnectionState → Effect
  status_shown : String → MessageStatus → Effect
  text_shown : IncomingText → Effect

pub record CachedDevices : Type 0 where
  pub devices : List String
  pub at : ℕ

pub record Client : Type 0 where
  pub relay : Option ℕ
  pub user_id : Option String
  pub pending_user_id : Option String
  pub device_id : ℕ
  pub push_token : Option String
  pub conn_state : ConnectionState
  pub intentional_close : Bool
  pub reconnect_attempt : ℕ
  -- The delay of the timer that is set.
  pub reconnect_timer : Option ℕ
  pub peer_device : Dict ℕ
  pub peer_identity : Dict String
  pub peer_devices : Dict CachedDevices
  pub ref_to_envelope : Dict String
  pub envelope_to_ref : Dict String
  pub tasks : List Task
  pub next_socket : ℕ
  -- The sockets that the client has closed itself.
  pub closed : List ℕ
  pub effects : List Effect

abbrev pub init : Client
init = record {
  relay = none;
  user_id = none;
  pending_user_id = none;
  device_id = 1;
  push_token = none;
  conn_state = offline;
  intentional_close = false;
  reconnect_attempt = 0;
  reconnect_timer = none;
  peer_device = [];
  peer_identity = [];
  peer_devices = [];
  ref_to_envelope = [];
  envelope_to_ref = [];
  tasks = [];
  next_socket = 0;
  closed = [];
  effects = [];
}

abbrev pub effect : Client → Effect → Client
effect c e = record c { effects = c.effects ++ e ∷ [] }

abbrev pub wait : Client → Task → Client
wait c t = record c { tasks = c.tasks ++ t ∷ [] }
