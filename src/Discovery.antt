-- ===== src/Discovery.antt =====
-- The discovery client (packages/client/src/discovery.ts, class DiscoveryClient): its tokens, the
-- requests it makes and what it reads of the replies. The server is a parameter: a function from
-- the requests so far, the newest first, to its answer to the newest.
pub mod Transport
pub mod Api
pub mod Loop
pub mod Shared
pub mod Laws
use hwfa.Common.{ℕ, Bool, true, false, not, ◌&&◌, Option, none, some, List, String, ◌==◌, leb, ltb}

-- A published key bundle with its device (packages/crypto/src/identity.ts).
pub record PublishedKeyBundle : Type 0 where
  pub registration_id : ℕ
  pub device_id : ℕ
  pub identity_key_b64 : String
  pub signed_pre_key_id : ℕ
  pub signed_pre_key_public_b64 : String
  pub signed_pre_key_signature_b64 : String
  pub kyber_pre_key_id : ℕ
  pub kyber_pre_key_public_b64 : String
  pub kyber_pre_key_signature_b64 : String
  pub one_time_pre_key_id : Option ℕ
  pub one_time_pre_key_public_b64 : Option String

pub record OneTimePreKeyPublic : Type 0 where
  pub id : ℕ
  pub public_b64 : String

pub record ContactMatch : Type 0 where
  pub phone_hash_b64 : String
  pub user_id : String

pub record DeviceInfo : Type 0 where
  pub user_id : String
  pub device_id : ℕ
  pub primary : Bool

pub data Method : Type 0 where
  http_get http_post http_put http_delete : Method

-- The objects that are sent as JSON; `no_body` is `undefined`.
pub data Body : Type 0 where
  no_body : Body
  empty_object : Body
  refresh_body : Option String → Body
  register_body : String → PublishedKeyBundle → List OneTimePreKeyPublic → Body
  verify_body : Option String → String → Body
  link_body : String → PublishedKeyBundle → List OneTimePreKeyPublic → Body
  upload_body : List OneTimePreKeyPublic → Body
  hashes_body : List String → Body

-- A call of `fetch`; `bearer` is the token of the Authorization header.
pub record Request : Type 0 where
  pub method : Method
  pub url : String
  pub json_header : Bool
  pub bearer : Option String
  pub body : Body

-- The fields that the client reads of a reply, each absent if the server left it out.
pub record Reply : Type 0 where
  pub token : Option String
  pub refresh_token : Option String
  pub verified : Bool
  pub user_id : Option String
  pub account_id : Option String
  pub otp_sent : Bool
  pub dev_otp : Option String
  pub bundle : Option PublishedKeyBundle
  pub my_devices : Option (List DeviceInfo)
  pub devices : Option (List String)
  pub pool_size : Option ℕ
  pub salt_b64 : Option String
  pub matches : Option (List ContactMatch)

-- `json` is none if the text is no JSON.
pub record Response : Type 0 where
  pub status : ℕ
  pub text : String
  pub json : Option Reply

pub data Answer : Type 0 where
  unreachable : Answer
  replied : Response → Answer

-- What a method throws.
pub data Failure : Type 0 where
  fetch_failed : Failure
  bad_json : Failure
  no_refresh_token : Failure
  discovery_error : ℕ → String → String → Failure
  no_dev_otp : Failure
  verification_failed : Failure
  link_failed : Failure
  invalid_link_code : Failure
  missing_field : Failure

pub data Result (A : Type 0) : Type 0 where
  threw : Failure → Result A
  returned : A → Result A

pub record Discovery : Type 0 where
  pub base_url : String
  pub token : Option String
  pub refresh_ : Option String

-- The client and the requests that it has made, the newest first.
pub record World : Type 0 where
  pub client : Discovery
  pub requests : List Request

abbrev pub Network : Type 0
Network = List Request → Answer

-- A string that is neither null nor empty.
abbrev pub truthy : Option String → Bool
truthy none = false
truthy (some s) = not (s == "")

-- `res.ok`.
abbrev pub is_ok : ℕ → Bool
is_ok status = leb 200 status && ltb status 300

unfoldable pub set_token : Discovery → String → Discovery
set_token c token = record c { token = some token }

unfoldable pub set_tokens : Discovery → String → String → Discovery
set_tokens c access refresh = record c { token = some access; refresh_ = some refresh }
