-- ===== src/Media.antt =====
-- The encryption of attachments (packages/client/src/media/media.ts: encryptMedia, decryptMedia).
-- Bytes and the cipher are not the program's: their type and operations are parameters, and so is
-- the base64 text of bytes. Fresh random bytes are arguments.
pub mod Laws
pub mod Base64
pub mod Bridge
pub mod Service
use hwfa.Common.{ℕ, Option, none, some, String, ◌==◌, if◌then◌else◌}
use hwfa.Wire.{MediaKeyMaterial, MediaReference}

pub record Cipher (B : Type 0) : Type 0 where
  pub encrypt : String → String → B → B
  -- `none` where the tag does not fit.
  pub decrypt : String → String → B → Option B
  pub sha256_b64 : B → String
  pub bytes_to_base64 : B → String
  pub size_of : B → ℕ

pub record MediaPlaintext (B : Type 0) : Type 0 where
  pub bytes : B
  pub mime : String
  pub name : Option String

pub record EncryptedMedia (B : Type 0) : Type 0 where
  pub ciphertext : B
  pub key_material : MediaKeyMaterial

-- A name that is absent or empty is left out.
abbrev pub named : Option String → Option String
named none = none
named (some name) = if name == "" then none else some name

module _ {B : Type 0} (cipher : Cipher B) where
  unfoldable pub encrypt_media : B → B → MediaPlaintext B → EncryptedMedia B
  encrypt_media key_bytes iv_bytes media =
      let key = cipher.bytes_to_base64 key_bytes in
      let iv = cipher.bytes_to_base64 iv_bytes in
      record {
        ciphertext = cipher.encrypt key iv media.bytes;
        key_material = record {
          key_b64 = key;
          iv_b64 = iv;
          mime = media.mime;
          size = cipher.size_of media.bytes;
          sha256_b64 = cipher.sha256_b64 media.bytes;
          name = named media.name;
        };
      }

  unfoldable pub decrypt_media : B → MediaReference → Option (MediaPlaintext B)
  decrypt_media ciphertext ref = elim (cipher.decrypt ref.key_b64 ref.iv_b64 ciphertext) [
    | none ↦ none
    | some bytes ↦
        if cipher.sha256_b64 bytes == ref.sha256_b64
        then some (record { bytes = bytes; mime = ref.mime; name = named ref.name })
        else none
  ]
