-- ===== src/Call.antt =====
-- Encrypted calls: the state that the screens read (apps/mobile/src/call/store.ts) and, below, the
-- engine that drives it (call/manager.ts).
pub mod Manager
pub mod Tasks
pub mod Events
pub mod Invariant
pub mod Signals
pub mod Races
mod Tests
use hwfa.Common.{ℕ, Bool, false, Option, none, List, ◌∷◌, String, take}

pub data CallStatus : Type 0 where
  idle outgoing incoming active ended : CallStatus

pub record CallState : Type 0 where
  pub status : CallStatus
  pub call_id : Option String
  pub peer_id : Option String
  pub peer_name : Option String
  pub video : Bool
  pub muted : Bool
  pub camera_off : Bool
  pub local_url : Option String
  pub remote_url : Option String
  pub started_at : Option ℕ
  pub ended_reason : Option String

pub data Direction : Type 0 where
  outgoing incoming : Direction

pub data Outcome : Type 0 where
  completed missed declined failed : Outcome

pub record CallLogEntry : Type 0 where
  pub call_id : String
  pub peer_id : String
  pub peer_name : Option String
  pub video : Bool
  pub direction : Direction
  pub outcome : Outcome
  pub at : ℕ

abbrev pub idle_state : CallState
idle_state = record {
  status = CallStatus.idle;
  call_id = none;
  peer_id = none;
  peer_name = none;
  video = false;
  muted = false;
  camera_off = false;
  local_url = none;
  remote_url = none;
  started_at = none;
  ended_reason = none;
}

pub record CallStore : Type 0 where
  pub state : CallState
  pub log : List CallLogEntry

-- `set(partial)`: the spread of the partial state over the state is a function on it.
abbrev pub set : (CallState → CallState) → CallStore → CallStore
set partial s = record s { state = partial s.state }

abbrev pub reset : CallStore → CallStore
reset s = record s { state = idle_state }

-- The newest hundred entries are kept.
unfoldable pub add_log : CallLogEntry → CallStore → CallStore
add_log entry s = record s { log = take 100 (entry ∷ s.log) }
