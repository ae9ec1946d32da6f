-- ===== src/Sessions/Laws.antt =====
-- What one device encrypts, the other reads.
mod Tests
use hwfa.Common.{
  ℕ, Option, none, some, List, [], ◌∷◌, ◌≡◌, refl, sym, ap, ◌∙◌, arith, String, is_some, true,
  Option-cases, inl, inr, All,
}
use hwfa.Models.{CiphertextType, pre_key, whisper}
use hwfa.Registration.{Bytes, ◌>>=◌}
use hwfa.Client.Messages.{EncryptedMessage}
use hwfa.Sessions.{
  Libsignal, encrypt, open_by, decrypt, provider_encrypt, provider_decrypt, converse,
}

-- What is relied on: bytes read back from base64, and of two devices in step, which
-- `InStep` stands for, one can encrypt for the other, which opens the message by the function for
-- its type, and they are in step again.
pub record IsSound {S P E : Type 0} (lib : Libsignal S P E) (a b : String × ℕ)
    (InStep : S → S → Type 0) : Type 0 where
  pub base64 : (c : Bytes) → lib.from_base64 (lib.to_base64 c) ≡ c
  pub ratchet :
      (s r : S) (m : Bytes)
      → InStep s r
      → (c : CiphertextType × Bytes) × (s' : S) × (r' : S) × (lib.signal_encrypt m b.0 b.1 s
          ≡ some (c, s'))
        × (c.0 ≡ pre_key → lib.signal_decrypt_pre_key c.1 a.0 a.1 r ≡ some (m, r'))
        × (c.0 ≡ whisper → lib.signal_decrypt c.1 a.0 a.1 r ≡ some (m, r'))
        × InStep s' r'

open_by_lem :
    {S P E : Type 0} (lib : Libsignal S P E) (t : CiphertextType) (c : Bytes) (peer : String)
    (device : ℕ) (r : S) (o : Option (Bytes × S))
    → (t ≡ pre_key → lib.signal_decrypt_pre_key c peer device r ≡ o)
    → (t ≡ whisper → lib.signal_decrypt c peer device r ≡ o)
    → open_by lib t c peer device r ≡ o
unfolding open_by
open_by_lem lib pre_key c peer device r o h k = h refl
open_by_lem lib whisper c peer device r o h k = k refl

-- Between two registered devices in step every text that reads back from its bytes arrives as it was
-- sent, in order, and the devices stay in step, if libsignal and base64 keep what is relied on.
pub converse_lem :
    {S P E : Type 0} (lib : Libsignal S P E) (a b : String × ℕ) (InStep : S → S → Type 0)
    (alice bob : S) (texts : List String)
    → IsSound lib a b InStep
    → All (λ s. lib.decode_text (lib.encode_text s) ≡ s) texts
    → InStep alice bob
    → (alice' : S) × (bob' : S) × (converse lib (some alice) (some bob) a b texts
        ≡ some (texts, some alice', some bob'))
      × InStep alice' bob'
unfolding converse provider_encrypt provider_decrypt encrypt decrypt
converse_lem lib a b InStep alice bob [] sound t h = (alice, bob, refl, h)
converse_lem lib a b InStep alice bob (text ∷ texts) sound (t, ts) h =
    let (c, alice1, bob1, e, first, next, h1) = sound.ratchet alice bob (lib.encode_text text) h in
    let d = open_by_lem lib c.0 c.1 a.0 a.1 bob (some (lib.encode_text text, bob1)) first next in
    let (alice', bob', rest, h') = converse_lem lib a b InStep alice1 bob1 texts sound ts h1 in
    (alice', bob', rw (e, sound.base64 c.1, d, t, rest, converse) refl, h')
