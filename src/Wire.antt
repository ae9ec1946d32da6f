-- ===== src/Wire.antt =====
-- The message bodies that ride the encrypted text path (apps/mobile/src/call/wire.ts,
-- group/wire.ts, typing/wire.ts, store/statuses.ts and packages/client/src/media/media.ts): a
-- prefix that names the kind, and the payload as JSON.
-- `JSON` is not the program's: each payload type has a `Json`, its two functions.
pub mod Bodies
use hwfa.Common.{ℕ, Bool, Option, some, List, String, ◌≡◌}

pub record Json (A : Type 0) : Type 0 where
  pub stringify : A → String
  -- `none` where `JSON.parse` throws, or returns `null`.
  pub parse : String → Option A

-- A payload that is written and read again is the same payload.
abbrev pub RoundTrips : {A : Type 0} → Json A → A → Type 0
RoundTrips json a = json.parse (json.stringify a) ≡ some a

pub data CallSignalType : Type 0 where
  ring accept decline ice hangup : CallSignalType

pub record Sdp : Type 0 where
  pub type : String
  pub sdp : String

pub record Candidate : Type 0 where
  pub candidate : String
  pub sdp_mid : Option String
  pub sdp_m_line_index : Option ℕ

pub record CallSignal : Type 0 where
  pub type : CallSignalType
  pub call_id : String
  pub video : Option Bool
  pub sdp : Option Sdp
  pub candidate : Option Candidate

pub record GroupPayload : Type 0 where
  pub gid : String
  pub name : String
  pub members : List String
  pub text : String

pub record TypingPayload : Type 0 where
  pub typing : Bool
  pub gid : Option String

pub record StatusPayload : Type 0 where
  pub id : String
  pub text : String
  pub at : ℕ
  pub expires_at : ℕ

pub record MediaKeyMaterial : Type 0 where
  pub key_b64 : String
  pub iv_b64 : String
  pub mime : String
  pub size : ℕ
  pub sha256_b64 : String
  pub name : Option String

pub record MediaReference : Type 0 where
  pub material : MediaKeyMaterial
  pub open material use *
  pub locator : String

-- One `Json` for each kind of payload.
pub record Codecs : Type 0 where
  pub call : Json CallSignal
  pub group : Json GroupPayload
  pub typing : Json TypingPayload
  pub status : Json StatusPayload
  pub media : Json MediaReference
