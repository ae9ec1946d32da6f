-- ===== src/Media/Laws.antt =====
-- What is encrypted is decrypted again, and what does not have the digest is refused.
use hwfa.Common.{
  Option, none, some, ◌≡◌, ◌≢◌, refl, String, ◌==◌, eq_iff, eq_refl, Bool-cases, inl, inr,
}
use hwfa.Wire.{MediaReference}
use hwfa.Media.{Cipher, MediaPlaintext, named, encrypt_media, decrypt_media}

named-named : (name : Option String) → named (named name) ≡ named name
named-named none = refl
named-named (some n) = elim (Bool-cases (n == "")) [ inl e ↦ rw e | inr e ↦ rw e (rw e) ]

-- An attachment comes back from its own ciphertext.
pub decrypt_media_own :
    {B : Type 0} (cipher : Cipher B) (key_bytes iv_bytes : B) (media : MediaPlaintext B)
    (locator : String)
    → let key = cipher.bytes_to_base64 key_bytes in
      let iv = cipher.bytes_to_base64 iv_bytes in
      cipher.decrypt key iv (cipher.encrypt key iv media.bytes) ≡ some media.bytes
      → let enc = encrypt_media cipher key_bytes iv_bytes media in
        decrypt_media cipher enc.ciphertext
          (record { material = enc.key_material; locator = locator })
        ≡ some (record media { name = named media.name })
unfolding encrypt_media decrypt_media
decrypt_media_own cipher key_bytes iv_bytes media locator h =
    rw (h, decrypt_media, eq_refl (cipher.sha256_b64 media.bytes), named-named media.name)

-- If the cipher decrypts its own output under the same key and IV, an attachment that is encrypted
-- and then decrypted against its reference, wherever it was stored, comes back with its bytes and
-- its type, and with its name unless that is empty. Bytes that decrypt to something with another
-- digest are refused.
pub decrypt_media-encrypt_media :
    {B : Type 0} (cipher : Cipher B) (key_bytes iv_bytes other changed : B)
    (media : MediaPlaintext B) (locator : String)
    → let key = cipher.bytes_to_base64 key_bytes in
      let iv = cipher.bytes_to_base64 iv_bytes in
      cipher.decrypt key iv (cipher.encrypt key iv media.bytes) ≡ some media.bytes
      → cipher.decrypt (cipher.bytes_to_base64 key_bytes) (cipher.bytes_to_base64 iv_bytes) other
        ≡ some changed
      → cipher.sha256_b64 changed ≢ cipher.sha256_b64 media.bytes
      → let enc = encrypt_media cipher key_bytes iv_bytes media in
        let ref : MediaReference = record { material = enc.key_material; locator = locator } in
        (decrypt_media cipher enc.ciphertext ref ≡ some (record media { name = named media.name }))
        × (decrypt_media cipher other ref ≡ none)
unfolding encrypt_media decrypt_media
decrypt_media-encrypt_media cipher key_bytes iv_bytes other changed media locator h k ne = (
  decrypt_media_own cipher key_bytes iv_bytes media locator h,
  rw (k, decrypt_media)
      (elim (Bool-cases (cipher.sha256_b64 changed == cipher.sha256_b64 media.bytes)) [
        | inl e ↦
            absurd (ne ((eq_iff (cipher.sha256_b64 changed) (cipher.sha256_b64 media.bytes)).0 e))
        | inr e ↦ rw e
      ]),
)
