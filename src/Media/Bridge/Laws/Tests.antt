-- ===== src/Media/Bridge/Laws/Tests.antt =====
-- A small image, a native module that leaves the text as it is, and a storage that keeps one object.
use hwfa.Common.{
  ℕ, All, Option, none, some, List, [], ◌∷◌, ◌≡◌, refl, arith, String, ◌==◌, if◌then◌else◌,
  or_default,
}
use hwfa.Wire.{MediaReference}
use hwfa.Discovery.{Method, http_get, http_post, http_put, http_delete}
use hwfa.Media.{MediaPlaintext, named, encrypt_media}
use hwfa.Media.Base64.{letter_at, bytes_to_base64, base64_to_bytes, to_data_uri}
use hwfa.Media.Base64.Laws.{IsByte, base64_to_bytes-bytes_to_base64}
use hwfa.Media.Bridge.{NativeHwfaMedia, rn_media_cipher, upload_image, download_image}
use hwfa.Media.Bridge.Laws.{Decrypts, download_image-upload_image}
use hwfa.Media.Service.{
  MediaRequest, MediaResponse, Network, HttpMediaService, upload_request, download_request,
  put_request, get_request,
}
use hwfa.Media.Service.Laws.{Stores}

abbrev picture : List ℕ
picture = 137 ∷ 80 ∷ 78 ∷ 71 ∷ []

picture_is_bytes : All IsByte picture
picture_is_bytes = (omega arith, (omega arith, (omega arith, (omega arith, tt))))

uri_test : to_data_uri picture "image/png" ≡ "data:image/png;base64,iVBORw=="
unfolding to_data_uri bytes_to_base64 letter_at
uri_test = refl

-- The accumulator has gone round after six letters.
base64_to_bytes-bytes_to_base64_example :
    base64_to_bytes (bytes_to_base64 (255 ∷ 254 ∷ 253 ∷ 252 ∷ 251 ∷ 250 ∷ 249 ∷ []))
    ≡ 255 ∷ 254 ∷ 253 ∷ 252 ∷ 251 ∷ 250 ∷ 249 ∷ []
base64_to_bytes-bytes_to_base64_example =
    base64_to_bytes-bytes_to_base64 (255 ∷ 254 ∷ 253 ∷ 252 ∷ 251 ∷ 250 ∷ 249 ∷ []) (
      omega arith,
      (omega arith, (omega arith, (omega arith, (omega arith, (omega arith, (omega arith, tt)))))),
    )

abbrev native : NativeHwfaMedia
native = record {
  sha256 = λ text. text;
  encrypt = λ key iv text. text;
  decrypt = λ key iv text. some text;
}

abbrev key_text : List ℕ → String
key_text bytes = bytes_to_base64 bytes

abbrev photo : MediaPlaintext (List ℕ)
photo = record { bytes = picture; mime = "image/png"; name = some "a.png" }

abbrev stored : List (MediaRequest (List ℕ)) → List ℕ
stored [] = []
stored (q ∷ log) = or_default q.body (stored log)

abbrev signed : String → Option (MediaResponse (List ℕ))
signed url =
    some (record { status = 200; json = some (record { url = url; locator = "l" }); bytes = [] })

abbrev answer : Method → String → List ℕ → Option (MediaResponse (List ℕ))
answer http_get url bytes =
    if url == "g" then some (record { status = 200; json = none; bytes = bytes }) else signed "g"
answer http_post url bytes = signed "p"
answer http_put url bytes = some (record { status = 200; json = none; bytes = [] })
answer http_delete url bytes = none

abbrev storage : Network (List ℕ)
storage [] = none
storage (q ∷ log) = answer q.method q.url (stored log)

abbrev service : HttpMediaService
service = record { base_url = "https://m"; get_token = some "a"; encode = λ s. s }

abbrev after : List (MediaRequest (List ℕ))
after = put_request "p" picture ∷ upload_request service ∷ []

storage-Stores : Stores storage service service [] after "p" "l" "g" picture
unfolding upload_request download_request put_request get_request
storage-Stores = record {
  signs_upload = (_, refl, refl, refl);
  takes = (_, refl, refl);
  signs_download = (_, refl, refl, refl);
  gives = (_, refl, refl, refl);
}

native-Decrypts :
    Decrypts native
      (key_text (base64_to_bytes "AQI="))
      (key_text (base64_to_bytes "AwQ="))
      (bytes_to_base64 picture)
      picture
native-Decrypts = record { are_bytes = picture_is_bytes; encrypts = refl; decrypts = refl }

download_image-upload_image_example :
    let enc =
      encrypt_media
        (rn_media_cipher native key_text)
        (base64_to_bytes "AQI=")
        (base64_to_bytes "AwQ=")
        photo in
    let ref : MediaReference = record { material = enc.key_material; locator = "l" } in
    ((upload_image native key_text "AQI=" "AwQ=" storage service [] photo).0 ≡ some ref)
    × ((download_image native key_text storage service after ref).0
        ≡ some (record photo { name = named photo.name }))
download_image-upload_image_example =
    download_image-upload_image native key_text "AQI=" "AwQ=" storage service service [] after photo
      "p" "l" "g" picture picture_is_bytes native-Decrypts storage-Stores
