-- ===== src/Models.antt =====
-- The types that the packages share (packages/models/src/envelope.ts, scam.ts).
-- A score of two decimals is a number of hundredths.
use hwfa.Common.{ℕ, Bool, Option, String}

pub data CiphertextType : Type 0 where
  pre_key whisper : CiphertextType

-- An envelope before the relay gives it an id.
pub record Submission : Type 0 where
  pub recipient_id : String
  pub recipient_device : ℕ
  pub sender_id : String
  pub sender_device : ℕ
  pub type : CiphertextType
  pub ciphertext : String
  pub timestamp : ℕ

pub record Envelope : Type 0 where
  pub id : String
  pub submission : Submission
  pub open submission use *

pub data MessageStatus : Type 0 where
  sending sent delivered read : MessageStatus

-- The status of a receipt.
pub data Receipt : Type 0 where
  delivered read : Receipt

pub data RelayMessage : Type 0 where
  send : Submission → Option String → RelayMessage
  deliver : Envelope → RelayMessage
  ack : String → ℕ → Option String → RelayMessage
  receipt : String → Receipt → String → ℕ → RelayMessage
  status : String → Receipt → RelayMessage
  register_push : String → RelayMessage

pub data ScamCategory : Type 0 where
  advance_fee investment_fraud romance job_offer impersonation phishing lottery : ScamCategory
  otp_solicitation deepfake rental_escrow : ScamCategory

pub record ScamVerdict : Type 0 where
  pub flagged : Bool
  pub category : Option ScamCategory
  pub score : ℕ
  pub model_version : String

pub record FalsePositiveReport : Type 0 where
  pub text_hash : String
  pub verdict : ScamVerdict
  pub reported_at : ℕ
