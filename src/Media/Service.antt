-- ===== src/Media/Service.antt =====
-- Upload and download of attachments (packages/client/src/media/service.ts: class HttpMediaService,
-- uploadMedia, downloadMedia). The media service and its storage are a parameter: a function from
-- the requests so far, the newest first, to the answer to the newest, none if `fetch` rejects. `none`
-- also stands for a thrown error; the requests that were made remain.
pub mod Laws
use hwfa.Common.{ℕ, true, false, Option, none, some, List, [], ◌∷◌, String, ◌==◌, if◌then◌else◌}
use hwfa.Common.Text.{◌+++◌}
use hwfa.Wire.{MediaReference}
use hwfa.Discovery.{Method, http_get, http_post, http_put, truthy, is_ok}
use hwfa.Media.{Cipher, MediaPlaintext, encrypt_media, decrypt_media}

pub record MediaRequest (B : Type 0) : Type 0 where
  pub method : Method
  pub url : String
  pub bearer : Option String
  pub body : Option B

-- The object with the signed address; the download address comes without a locator.
pub record Presigned : Type 0 where
  pub url : String
  pub locator : String

pub record MediaResponse (B : Type 0) : Type 0 where
  pub status : ℕ
  pub json : Option Presigned
  pub bytes : B

abbrev pub Network : Type 0 → Type 0
Network B = List (MediaRequest B) → Option (MediaResponse B)

-- `get_token` is what `getToken()` returns, `encode` is `encodeURIComponent`.
pub record HttpMediaService : Type 0 where
  pub base_url : String
  pub get_token : Option String
  pub encode : String → String

-- A token that is absent or empty sets no header.
unfoldable pub auth_headers : HttpMediaService → Option String
auth_headers service = if truthy service.get_token then service.get_token else none

module _ {B : Type 0} where
  -- `fetch`, and the test of `ok` that follows it everywhere.
  unfoldable pub fetch_ok :
      Network B
      → List (MediaRequest B)
      → MediaRequest B
      → Option (MediaResponse B) × List (MediaRequest B)
  fetch_ok net log request = elim (net (request ∷ log)) [
    | none ↦ (none, request ∷ log)
    | some res ↦ if is_ok res.status then (some res, request ∷ log) else (none, request ∷ log)
  ]

  unfoldable pub upload_request : HttpMediaService → MediaRequest B
  unfolding auth_headers
  upload_request service = record {
    method = http_post;
    url = service.base_url +++ "/v1/media/upload-url";
    bearer = auth_headers service;
    body = none;
  }

  unfoldable pub download_request : HttpMediaService → String → MediaRequest B
  unfolding auth_headers
  download_request service locator = record {
    method = http_get;
    url = service.base_url +++ "/v1/media/download-url?locator=" +++ service.encode locator;
    bearer = auth_headers service;
    body = none;
  }

  -- `res.json()`.
  unfoldable pub presigned :
      Option (MediaResponse B) × List (MediaRequest B) → Option Presigned × List (MediaRequest B)
  presigned (none, log) = (none, log)
  presigned (some res, log) = (res.json, log)

  unfoldable pub upload_url :
      Network B
      → HttpMediaService
      → List (MediaRequest B)
      → Option Presigned × List (MediaRequest B)
  unfolding presigned
  upload_url net service log = presigned (fetch_ok net log (upload_request service))

  unfoldable pub download_url :
      Network B
      → HttpMediaService
      → List (MediaRequest B)
      → String
      → Option Presigned × List (MediaRequest B)
  unfolding presigned
  download_url net service log locator =
      presigned (fetch_ok net log (download_request service locator))

  unfoldable pub put_request : String → B → MediaRequest B
  put_request url ciphertext = record {
    method = http_put;
    url = url;
    bearer = none;
    body = some ciphertext;
  }

  unfoldable pub get_request : String → MediaRequest B
  get_request url = record { method = http_get; url = url; bearer = none; body = none }

  unfoldable pub upload_media :
      Cipher B
      → B
      → B
      → Network B
      → HttpMediaService
      → List (MediaRequest B)
      → MediaPlaintext B
      → Option MediaReference × List (MediaRequest B)
  upload_media cipher key_bytes iv_bytes net service log media =
      let enc = encrypt_media cipher key_bytes iv_bytes media in
      let (signed, log') = upload_url net service log in
      elim signed [
        | none ↦ (none, log')
        | some p ↦
            let (put, log'') = fetch_ok net log' (put_request p.url enc.ciphertext) in
            elim put [
              | none ↦ (none, log'')
              | some _ ↦ (some (record { material = enc.key_material; locator = p.locator }), log'')
            ]
      ]

  unfoldable pub download_media :
      Cipher B
      → Network B
      → HttpMediaService
      → List (MediaRequest B)
      → MediaReference
      → Option (MediaPlaintext B) × List (MediaRequest B)
  download_media cipher net service log ref =
      let (signed, log') = download_url net service log ref.locator in
      elim signed [
        | none ↦ (none, log')
        | some p ↦
            let (got, log'') = fetch_ok net log' (get_request p.url) in
            elim got [
              | none ↦ (none, log'')
              | some res ↦ (decrypt_media cipher res.bytes ref, log'')
            ]
      ]
