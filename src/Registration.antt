-- ===== src/Registration.antt =====
-- The keys of a device (packages/crypto/src/identity.ts: generateRegistration, toPreKeyBundle).
-- libsignal's keys and what it does with them are parameters: K are the private keys, P their
-- public halves, Q the key pairs for encapsulation and E their public halves. The pairs that it draws
-- and the time are arguments. A Buffer is its bytes.
pub mod Laws
use hwfa.Common.{
  ℕ, zero, suc, ◌+◌, Bool, true, false, ◌&&◌, Option, none, some, List, [], ◌∷◌, String, is_some,
  or_default, if◌then◌else◌,
}
use hwfa.Common.Dict.{Dict}
use hwfa.SignalStores.{KyberPreKeys, save_signed_pre_key, save_kyber_pre_key}
use hwfa.Discovery.{PublishedKeyBundle, OneTimePreKeyPublic}
use hwfa.KeyPool.{mint_from}

infixl 5 ◌>>=◌
abbrev pub ◌>>=◌ : {A B : Type 0} → Option A → (A → Option B) → Option B
o >>= f = elim o [ none ↦ none | some a ↦ f a ]

abbrev pub Bytes : Type 0
Bytes = List ℕ

pub record Primitives (K P Q E : Type 0) : Type 0 where
  pub get_public_key : K → P
  pub sign : K → Bytes → Bytes
  pub verify : P → Bytes → Bytes → Bool
  pub serialize : P → Bytes
  pub deserialize : Bytes → Option P
  pub kem_public_key : Q → E
  pub kem_serialize : E → Bytes
  pub kem_deserialize : Bytes → Option E
  pub to_base64 : Bytes → String
  pub from_base64 : String → Bytes

pub record SignedPreKeyRecord (K P : Type 0) : Type 0 where
  pub id : ℕ
  pub timestamp : ℕ
  pub public_key : P
  pub private_key : K
  pub signature : Bytes

pub record KyberPreKeyRecord (Q : Type 0) : Type 0 where
  pub id : ℕ
  pub timestamp : ℕ
  pub key_pair : Q
  pub signature : Bytes

pub record PreKeyRecord (K P : Type 0) : Type 0 where
  pub id : ℕ
  pub public_key : P
  pub private_key : K

pub record Stores (K P Q : Type 0) : Type 0 where
  pub identity_key : K
  pub registration_id : ℕ
  pub signed_pre_key : Dict (SignedPreKeyRecord K P)
  pub kyber_pre_key : KyberPreKeys (KyberPreKeyRecord Q)
  pub pre_key : Dict (PreKeyRecord K P)

pub record GenerateOptions : Type 0 where
  pub device_id : Option ℕ
  pub one_time_pre_key_count : Option ℕ
  pub signed_pre_key_id : Option ℕ
  pub kyber_pre_key_id : Option ℕ

-- What is drawn at random; `random` is `Math.floor(Math.random() * 16379)`.
pub record Draws (K Q : Type 0) : Type 0 where
  pub identity : K
  pub random : ℕ
  pub signed : K
  pub kyber : Q
  pub one_time : ℕ → K

pub record DeviceRegistration (K P Q : Type 0) : Type 0 where
  pub stores : Stores K P Q
  pub published_bundle : PublishedKeyBundle
  pub one_time_pre_keys : List OneTimePreKeyPublic

-- libsignal's `PreKeyBundle`.
pub record PreKeyBundle (P E : Type 0) : Type 0 where
  pub registration_id : ℕ
  pub device_id : ℕ
  pub pre_key_id : Option ℕ
  pub pre_key_public : Option P
  pub signed_pre_key_id : ℕ
  pub signed_pre_key_public : P
  pub signed_pre_key_signature : Bytes
  pub identity_key : P
  pub kyber_pre_key_id : ℕ
  pub kyber_pre_key_public : E
  pub kyber_pre_key_signature : Bytes

-- `randomRegistrationId`.
unfoldable pub registration_id_of : ℕ → ℕ
registration_id_of random = 1 + random

unfoldable pub first_key : List OneTimePreKeyPublic → Option OneTimePreKeyPublic
first_key [] = none
first_key (k ∷ keys) = some k

abbrev pub id_of : Option OneTimePreKeyPublic → Option ℕ
id_of none = none
id_of (some k) = some k.id

abbrev pub public_of : Option OneTimePreKeyPublic → Option String
public_of none = none
public_of (some k) = some k.public_b64

module _ {K P Q E : Type 0} (prim : Primitives K P Q E) where
  -- The record and the public half of the `i`th one-time key, whose id is `i + 1`.
  abbrev pub drawn_key : (ℕ → K) → ℕ → PreKeyRecord K P × String
  drawn_key one_time i =
      let pub_key = prim.get_public_key (one_time i) in
      (
        record { id = 1 + i; public_key = pub_key; private_key = one_time i },
        prim.to_base64 (prim.serialize pub_key),
      )

  unfoldable pub signed_record : Draws K Q → ℕ → ℕ → SignedPreKeyRecord K P
  signed_record draws now id =
      let pub_key = prim.get_public_key draws.signed in
      record {
        id = id;
        timestamp = now;
        public_key = pub_key;
        private_key = draws.signed;
        signature = prim.sign draws.identity (prim.serialize pub_key);
      }

  unfoldable pub kyber_record : Draws K Q → ℕ → ℕ → KyberPreKeyRecord Q
  kyber_record draws now id = record {
    id = id;
    timestamp = now;
    key_pair = draws.kyber;
    signature = prim.sign draws.identity (prim.kem_serialize (prim.kem_public_key draws.kyber));
  }

  unfoldable pub generate_registration : Draws K Q → ℕ → GenerateOptions → DeviceRegistration K P Q
  unfolding registration_id_of first_key mint_from signed_record kyber_record save_signed_pre_key
      save_kyber_pre_key
  generate_registration draws now opts =
      let signed_id = or_default opts.signed_pre_key_id 1 in
      let kyber_id = or_default opts.kyber_pre_key_id 1 in
      let signed = signed_record draws now signed_id in
      let kyber = kyber_record draws now kyber_id in
      let (keys, pool) =
        mint_from (drawn_key draws.one_time) 1 0 (or_default opts.one_time_pre_key_count 10) [] in
      record {
        stores = record {
          identity_key = draws.identity;
          registration_id = registration_id_of draws.random;
          signed_pre_key = save_signed_pre_key [] signed_id signed;
          kyber_pre_key = save_kyber_pre_key (record { keys = []; used = [] }) kyber_id kyber;
          pre_key = pool;
        };
        published_bundle = record {
          registration_id = registration_id_of draws.random;
          device_id = or_default opts.device_id 1;
          identity_key_b64 = prim.to_base64 (prim.serialize (prim.get_public_key draws.identity));
          signed_pre_key_id = signed_id;
          signed_pre_key_public_b64 = prim.to_base64 (prim.serialize signed.public_key);
          signed_pre_key_signature_b64 = prim.to_base64 signed.signature;
          kyber_pre_key_id = kyber_id;
          kyber_pre_key_public_b64 =
              prim.to_base64 (prim.kem_serialize (prim.kem_public_key draws.kyber));
          kyber_pre_key_signature_b64 = prim.to_base64 kyber.signature;
          one_time_pre_key_id = id_of (first_key keys);
          one_time_pre_key_public_b64 = public_of (first_key keys);
        };
        one_time_pre_keys = keys;
      }

  -- The one-time key of a bundle that has both of its parts; `none` if the key does not read.
  unfoldable pub one_time_part : Option ℕ → Option String → Option (Option ℕ × Option P)
  one_time_part (some id) (some public_b64) =
      elim (prim.deserialize (prim.from_base64 public_b64)) [
        | none ↦ none
        | some key ↦ some (some id, some key)
      ]
  one_time_part _ _ = some (none, none)

  -- `none` where a key does not read, which libsignal throws on.
  unfoldable pub to_pre_key_bundle : PublishedKeyBundle → Option (PreKeyBundle P E)
  unfolding one_time_part
  to_pre_key_bundle pub_bundle = do
    one_time ← one_time_part pub_bundle.one_time_pre_key_id pub_bundle.one_time_pre_key_public_b64
    signed ← prim.deserialize (prim.from_base64 pub_bundle.signed_pre_key_public_b64)
    identity ← prim.deserialize (prim.from_base64 pub_bundle.identity_key_b64)
    kyber ← prim.kem_deserialize (prim.from_base64 pub_bundle.kyber_pre_key_public_b64)
    some (record {
      registration_id = pub_bundle.registration_id;
      device_id = pub_bundle.device_id;
      pre_key_id = one_time.0;
      pre_key_public = one_time.1;
      signed_pre_key_id = pub_bundle.signed_pre_key_id;
      signed_pre_key_public = signed;
      signed_pre_key_signature = prim.from_base64 pub_bundle.signed_pre_key_signature_b64;
      identity_key = identity;
      kyber_pre_key_id = pub_bundle.kyber_pre_key_id;
      kyber_pre_key_public = kyber;
      kyber_pre_key_signature = prim.from_base64 pub_bundle.kyber_pre_key_signature_b64;
    })
