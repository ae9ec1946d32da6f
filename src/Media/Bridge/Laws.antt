-- ===== src/Media/Bridge/Laws.antt =====
-- Images from one phone to another.
mod Tests
use mathlib.Core.Path.{subst}
use hwfa.Common.{ℕ, All, Option, none, some, List, ◌≡◌, sym, ap, ◌∙◌, String}
use hwfa.Wire.{MediaReference}
use hwfa.Media.{MediaPlaintext, named, encrypt_media}
use hwfa.Media.Base64.{bytes_to_base64, base64_to_bytes}
use hwfa.Media.Base64.Laws.{IsByte, base64_to_bytes-bytes_to_base64}
use hwfa.Media.Bridge.{NativeHwfaMedia, rn_media_cipher, upload_image, download_image}
use hwfa.Media.Service.{MediaRequest, Network, HttpMediaService}
use hwfa.Media.Service.Laws.{Stores, download_media-upload_media}

-- What the native module documents for one key and IV: it returns the base64 of the encrypted bytes,
-- and turns the base64 of those into the text that was encrypted.
pub record Decrypts (native : NativeHwfaMedia) (key iv text : String) (sealed : List ℕ)
    : Type 0 where
  pub are_bytes : All IsByte sealed
  pub encrypts : native.encrypt key iv text ≡ bytes_to_base64 sealed
  pub decrypts : native.decrypt key iv (bytes_to_base64 sealed) ≡ some text

module _ (native : NativeHwfaMedia) (key_text : List ℕ → String) where
  -- What crosses the bridge is what the native module encrypted.
  encrypt_lem :
      (key iv : String) (image sealed : List ℕ)
      → Decrypts native key iv (bytes_to_base64 image) sealed
      → (rn_media_cipher native key_text).encrypt key iv image ≡ sealed
  unfolding rn_media_cipher
  encrypt_lem key iv image sealed d =
      ap base64_to_bytes d.encrypts ∙ base64_to_bytes-bytes_to_base64 sealed d.are_bytes

  decrypt_lem :
      (key iv : String) (image sealed : List ℕ)
      → All IsByte image
      → Decrypts native key iv (bytes_to_base64 image) sealed
      → (rn_media_cipher native key_text).decrypt key iv sealed ≡ some image
  unfolding rn_media_cipher
  decrypt_lem key iv image sealed h d =
      rw (d.decrypts) (ap some (base64_to_bytes-bytes_to_base64 image h))

  -- If the native module decrypts its own output, which crosses the bridge as base64, and the media
  -- service and its storage keep the object, then an image of any bytes that one phone uploads gives
  -- the reference with the locator of the object, and a phone that downloads that reference later
  -- gets the very bytes back, with the type, and the name unless it is empty.
  pub download_image-upload_image :
      (random random' : String) (net : Network (List ℕ)) (up down : HttpMediaService)
      (log log' : List (MediaRequest (List ℕ))) (media : MediaPlaintext (List ℕ))
      (put_url locator get_url : String) (sealed : List ℕ)
      → All IsByte media.bytes
      → Decrypts native
          (key_text (base64_to_bytes random))
          (key_text (base64_to_bytes random'))
          (bytes_to_base64 media.bytes)
          sealed
      → Stores net up down log log' put_url locator get_url sealed
      → let enc =
          encrypt_media
            (rn_media_cipher native key_text)
            (base64_to_bytes random)
            (base64_to_bytes random')
            media in
        let ref : MediaReference = record { material = enc.key_material; locator = locator } in
        ((upload_image native key_text random random' net up log media).0 ≡ some ref)
        × ((download_image native key_text net down log' ref).0
            ≡ some (record media { name = named media.name }))
  unfolding rn_media_cipher upload_image download_image encrypt_media
  download_image-upload_image random random' net up down log log' media put_url locator get_url
        sealed h d stores =
      let key = key_text (base64_to_bytes random) in
      let iv = key_text (base64_to_bytes random') in
      let same = encrypt_lem key iv media.bytes sealed d in
      download_media-upload_media (rn_media_cipher native key_text) (base64_to_bytes random)
        (base64_to_bytes random') net up down log log' media put_url locator get_url
        (ap ((rn_media_cipher native key_text).decrypt key iv) same
          ∙ decrypt_lem key iv media.bytes sealed h d)
        (subst (λ c. Stores net up down log log' put_url locator get_url c) (sym same) stores)
