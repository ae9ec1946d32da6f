-- ===== src/Sessions.antt =====
-- Sessions (packages/crypto/src/session.ts) as a device's provider uses them
-- (packages/client/src/node/provider.ts: establishSession, encrypt, decrypt, requireStores).
-- libsignal, TextEncoder, TextDecoder and the base64 of a Buffer are parameters; `none` stands for a
-- thrown error. S is the state of a device's stores, which an operation changes in place.
pub mod Laws
use hwfa.Common.{ℕ, Option, none, some, List, [], ◌∷◌, String}
use hwfa.Models.{CiphertextType, pre_key, whisper}
use hwfa.Discovery.{PublishedKeyBundle}
use hwfa.Registration.{Bytes, Primitives, PreKeyBundle, to_pre_key_bundle, ◌>>=◌}
use hwfa.Client.Messages.{EncryptedMessage}

-- A ProtocolAddress is an account and its device.
pub record Libsignal (S P E : Type 0) : Type 0 where
  pub process_pre_key_bundle : PreKeyBundle P E → String → ℕ → S → Option S
  pub signal_encrypt : Bytes → String → ℕ → S → Option ((CiphertextType × Bytes) × S)
  -- Reading the message and opening it.
  pub signal_decrypt_pre_key : Bytes → String → ℕ → S → Option (Bytes × S)
  pub signal_decrypt : Bytes → String → ℕ → S → Option (Bytes × S)
  pub encode_text : String → Bytes
  pub decode_text : Bytes → String
  pub to_base64 : Bytes → String
  pub from_base64 : String → Bytes

module _ {S P E : Type 0} (lib : Libsignal S P E) where
  unfoldable pub establish_session :
      {K Q : Type 0} → Primitives K P Q E → S → String → ℕ → PublishedKeyBundle → Option S
  unfolding to_pre_key_bundle
  establish_session prim stores peer device bundle = do
    read ← to_pre_key_bundle prim bundle
    lib.process_pre_key_bundle read peer device stores

  unfoldable pub encrypt : S → String → ℕ → String → Option (EncryptedMessage × S)
  encrypt stores peer device plaintext = do
    message ← lib.signal_encrypt (lib.encode_text plaintext) peer device stores
    some (record { type = message.0.0; ciphertext_b64 = lib.to_base64 message.0.1 }, message.1)

  -- The path that the type of a message takes.
  unfoldable pub open_by : CiphertextType → Bytes → String → ℕ → S → Option (Bytes × S)
  open_by pre_key raw peer device stores = lib.signal_decrypt_pre_key raw peer device stores
  open_by whisper raw peer device stores = lib.signal_decrypt raw peer device stores

  unfoldable pub decrypt : S → String → ℕ → EncryptedMessage → Option (String × S)
  unfolding open_by
  decrypt stores peer device encrypted = do
    plain ← open_by encrypted.type (lib.from_base64 encrypted.ciphertext_b64) peer device stores
    some (lib.decode_text plain.0, plain.1)

  -- The provider's methods, with `requireStores`: nothing works before a registration.
  unfoldable pub provider_encrypt :
      Option S → String → ℕ → String → Option (EncryptedMessage × Option S)
  unfolding encrypt
  provider_encrypt p peer device plaintext = do
    stores ← p
    sealed ← encrypt stores peer device plaintext
    some (sealed.0, some sealed.1)

  unfoldable pub provider_decrypt :
      Option S → String → ℕ → EncryptedMessage → Option (String × Option S)
  unfolding decrypt
  provider_decrypt p peer device encrypted = do
    stores ← p
    plain ← decrypt stores peer device encrypted
    some (plain.0, some plain.1)

  -- Texts that one device sends and the other takes, in order.
  unfoldable pub converse :
      Option S
      → Option S
      → String × ℕ
      → String × ℕ
      → List String
      → Option (List String × Option S × Option S)
  converse alice bob a b [] = some ([], alice, bob)
  converse alice bob a b (text ∷ texts) = do
    sealed ← provider_encrypt alice b.0 b.1 text
    plain ← provider_decrypt bob a.0 a.1 sealed.0
    rest ← converse sealed.1 plain.1 a b texts
    some (plain.0 ∷ rest.0, rest.1, rest.2)
