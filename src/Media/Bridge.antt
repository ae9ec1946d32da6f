-- ===== src/Media/Bridge.antt =====
-- Attachments in the app (apps/mobile/src/media/rnMediaCipher.ts: class RNMediaCipher;
-- apps/mobile/src/media/mediaService.ts: uploadImage, downloadImage). The native module is not the
-- program's: its answers are a parameter, and so is `bytes_to_base64`, the base64 of
-- packages/client that encodes the key and the IV.
pub mod Laws
use hwfa.Common.{ℕ, Option, none, some, List, length, String}
use hwfa.Wire.{MediaReference}
use hwfa.Media.{Cipher, MediaPlaintext}
use hwfa.Media.Base64.{bytes_to_base64, base64_to_bytes}
use hwfa.Media.Service.{MediaRequest, Network, HttpMediaService, upload_media, download_media}

-- What HwfaMedia answers; `none` is a promise that is rejected.
pub record NativeHwfaMedia : Type 0 where
  pub sha256 : String → String
  pub encrypt : String → String → String → String
  pub decrypt : String → String → String → Option String

abbrev pub decoded : Option String → Option (List ℕ)
decoded none = none
decoded (some text) = some (base64_to_bytes text)

unfoldable pub rn_media_cipher : NativeHwfaMedia → (List ℕ → String) → Cipher (List ℕ)
rn_media_cipher native key_text = record {
  encrypt = λ key_b64 iv_b64 plaintext.
      base64_to_bytes (native.encrypt key_b64 iv_b64 (bytes_to_base64 plaintext));
  decrypt = λ key_b64 iv_b64 ciphertext.
      decoded (native.decrypt key_b64 iv_b64 (bytes_to_base64 ciphertext));
  sha256_b64 = λ bytes. native.sha256 (bytes_to_base64 bytes);
  bytes_to_base64 = key_text;
  size_of = length;
}

-- The random texts are the two answers of `randomBytes`.
unfoldable pub upload_image :
    NativeHwfaMedia
    → (List ℕ → String)
    → String
    → String
    → Network (List ℕ)
    → HttpMediaService
    → List (MediaRequest (List ℕ))
    → MediaPlaintext (List ℕ)
    → Option MediaReference × List (MediaRequest (List ℕ))
upload_image native key_text random random' net service log media =
    upload_media (rn_media_cipher native key_text) (base64_to_bytes random)
      (base64_to_bytes random') net service log media

unfoldable pub download_image :
    NativeHwfaMedia
    → (List ℕ → String)
    → Network (List ℕ)
    → HttpMediaService
    → List (MediaRequest (List ℕ))
    → MediaReference
    → Option (MediaPlaintext (List ℕ)) × List (MediaRequest (List ℕ))
download_image native key_text net service log ref =
    download_media (rn_media_cipher native key_text) net service log ref
