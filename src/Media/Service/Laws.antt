-- ===== src/Media/Service/Laws.antt =====
-- What one device uploads another downloads.
use hwfa.Common.{true, some, List, ◌∷◌, ◌≡◌, ap, ◌∙◌, arith, String}
use hwfa.Wire.{MediaReference}
use hwfa.Discovery.{is_ok}
use hwfa.Media.{Cipher, MediaPlaintext, named, encrypt_media, decrypt_media}
use hwfa.Media.Laws.{decrypt_media_own}
use hwfa.Media.Service.{
  MediaRequest, Presigned, MediaResponse, Network, HttpMediaService, fetch_ok, upload_request,
  download_request, presigned, upload_url, download_url, put_request, get_request, upload_media,
  download_media,
}

module _ {B : Type 0} where
  fetch_ok_lem :
      (net : Network B) (log : List (MediaRequest B)) (request : MediaRequest B)
      (res : MediaResponse B)
      → net (request ∷ log) ≡ some res
      → is_ok res.status ≡ true
      → fetch_ok net log request ≡ (some res, request ∷ log)
  unfolding fetch_ok
  fetch_ok_lem net log request res e ok = ground arith

  -- What the service and its storage document of one object: it signs an upload and later, after the
  -- requests `log'`, a download of the same locator, which returns the bytes that were put.
  pub record Stores (net : Network B) (up down : HttpMediaService)
      (log log' : List (MediaRequest B)) (put_url locator get_url : String) (ciphertext : B)
      : Type 0 where
    pub signs_upload :
        (res : MediaResponse B) × (net (upload_request up ∷ log) ≡ some res)
        × (is_ok res.status ≡ true)
        × (res.json ≡ some (record { url = put_url; locator = locator }))
    pub takes :
        (res : MediaResponse B) × (net (put_request put_url ciphertext ∷ upload_request up ∷ log)
          ≡ some res)
        × (is_ok res.status ≡ true)
    pub signs_download :
        (res : MediaResponse B) × (net (download_request down locator ∷ log') ≡ some res)
        × (is_ok res.status ≡ true)
        × (res.json ≡ some (record { url = get_url; locator = locator }))
    pub gives :
        (res : MediaResponse B) × (net (get_request get_url ∷ download_request down locator ∷ log')
          ≡ some res)
        × (is_ok res.status ≡ true)
        × (res.bytes ≡ ciphertext)

  uploaded :
      (cipher : Cipher B) (key_bytes iv_bytes : B) (net : Network B) (up : HttpMediaService)
      (log : List (MediaRequest B)) (media : MediaPlaintext B) (put_url locator : String)
      (res res' : MediaResponse B)
      → let enc = encrypt_media cipher key_bytes iv_bytes media in
        net (upload_request up ∷ log) ≡ some res
        → is_ok res.status ≡ true
        → res.json ≡ some (record { url = put_url; locator = locator })
        → net (put_request put_url enc.ciphertext ∷ upload_request up ∷ log) ≡ some res'
        → is_ok res'.status ≡ true
        → upload_media cipher key_bytes iv_bytes net up log media ≡ (
          some (record { material = enc.key_material; locator = locator }),
          put_request put_url enc.ciphertext ∷ upload_request up ∷ log,
        )
  unfolding upload_media upload_url presigned
  uploaded cipher key_bytes iv_bytes net up log media put_url locator res res' e ok j e' ok' =
      let enc = encrypt_media cipher key_bytes iv_bytes media in
      ground (
        arith,
        fetch_ok_lem net log (upload_request up) res e ok,
        fetch_ok_lem net (upload_request up ∷ log) (put_request put_url enc.ciphertext) res' e' ok',
      )

  downloaded :
      (cipher : Cipher B) (net : Network B) (down : HttpMediaService) (log : List (MediaRequest B))
      (ref : MediaReference) (p : Presigned) (res res' : MediaResponse B)
      → net (download_request down ref.locator ∷ log) ≡ some res
      → is_ok res.status ≡ true
      → res.json ≡ some p
      → net (get_request p.url ∷ download_request down ref.locator ∷ log) ≡ some res'
      → is_ok res'.status ≡ true
      → (download_media cipher net down log ref).0 ≡ decrypt_media cipher res'.bytes ref
  unfolding download_media download_url presigned
  downloaded cipher net down log ref p res res' e ok j e' ok' = ground (
    arith,
    fetch_ok_lem net log (download_request down ref.locator) res e ok,
    fetch_ok_lem net (download_request down ref.locator ∷ log) (get_request p.url) res' e' ok',
  )

  -- If the cipher decrypts its own output, and the service and its storage keep the object, then an
  -- upload returns a reference with the locator of the object, and whoever downloads that reference
  -- later gets the bytes and the type back, and the name unless it is empty.
  pub download_media-upload_media :
      (cipher : Cipher B) (key_bytes iv_bytes : B) (net : Network B) (up down : HttpMediaService)
      (log log' : List (MediaRequest B)) (media : MediaPlaintext B)
      (put_url locator get_url : String)
      → let enc = encrypt_media cipher key_bytes iv_bytes media in
        let key = cipher.bytes_to_base64 key_bytes in
        let iv = cipher.bytes_to_base64 iv_bytes in
        cipher.decrypt key iv (cipher.encrypt key iv media.bytes) ≡ some media.bytes
        → Stores net up down log log' put_url locator get_url enc.ciphertext
        → let ref : MediaReference = record { material = enc.key_material; locator = locator } in
          ((upload_media cipher key_bytes iv_bytes net up log media).0 ≡ some ref)
          × ((download_media cipher net down log' ref).0
              ≡ some (record media { name = named media.name }))
  download_media-upload_media cipher key_bytes iv_bytes net up down log log' media put_url locator
        get_url h stores =
      let (res, e, ok, j) = stores.signs_upload in
      let (res', e', ok') = stores.takes in
      let (got, f, f_ok, k) = stores.signs_download in
      let (got', f', f_ok', same) = stores.gives in
      let enc = encrypt_media cipher key_bytes iv_bytes media in
      let ref : MediaReference = record { material = enc.key_material; locator = locator } in
      (
        ap (λ r. r.0)
            (uploaded cipher key_bytes iv_bytes net up log media put_url locator res res' e ok j e'
              ok'),
        downloaded cipher net down log' ref (record { url = get_url; locator = locator }) got got' f
              f_ok k f' f_ok'
            ∙ ap (λ bytes. decrypt_media cipher bytes ref) same
            ∙ decrypt_media_own cipher key_bytes iv_bytes media locator h,
      )
