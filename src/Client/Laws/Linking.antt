-- ===== src/Client/Laws/Linking.antt =====
-- A link code that one device makes is the one that the other reads.
use hwfa.Common.{ℕ, ◌+◌, ◌%◌, ◌≤◌, ◌≡◌, refl, ap, ◌∙◌, true, some, String}
use hwfa.Common.Text.{◌+++◌, text_length}
use hwfa.Base64Url.Laws.{all_plain, equals, to_standard-to_url_safe}
use hwfa.Utf8.{utf8_encode}
use hwfa.Utf8.Laws.{well_formed, utf8_decode-utf8_encode}
use hwfa.Discovery.{World, Network, truthy}
use hwfa.Discovery.Api.{link_device}
use hwfa.Client.{Client}
use hwfa.Client.Linking.{
  LinkPayload, Codec, Registration, base64_url_encode, base64_url_decode, linked, link_parsed,
  link_with_code,
}

-- What `JSON` and `btoa` do with one payload: JSON text is well-formed UTF-16 and reads back, base64
-- has its alphabet and its padding and reads back.
pub record Carries (codec : Codec) (payload : LinkPayload) (body : String) (n : ℕ) : Type 0 where
  pub reads_back : codec.parse (codec.stringify payload) ≡ some payload.t
  pub well_formed_text : well_formed (codec.stringify payload) ≡ true
  pub shape : codec.to_base64 (utf8_encode (codec.stringify payload)) ≡ body +++ equals n
  pub plain : all_plain body ≡ true
  pub padded : n ≤ 2
  pub whole : (text_length body + n) % 4 ≡ 0
  pub decodes : codec.from_base64 (body +++ equals n) ≡ utf8_encode (codec.stringify payload)

decoded_text :
    (codec : Codec) (payload : LinkPayload) (body : String) (n : ℕ)
    → Carries codec payload body n
    → base64_url_decode codec (base64_url_encode codec (codec.stringify payload))
      ≡ codec.stringify payload
unfolding base64_url_encode base64_url_decode
decoded_text codec payload body n c =
    rw (c.shape, to_standard-to_url_safe body n c.plain c.padded c.whole, c.decodes)
      (utf8_decode-utf8_encode (codec.stringify payload) c.well_formed_text)

-- Using the code of a payload with a token links this device with that very token.
pub link_with_code-base64_url_encode :
    (codec : Codec) (payload : LinkPayload) (body : String) (n : ℕ) (net : Network)
    (reg : Registration) (c : Client) (w : World) (t : String)
    → Carries codec payload body n
    → payload.t ≡ some t
    → truthy (some t) ≡ true
    → link_with_code codec net reg c w (base64_url_encode codec (codec.stringify payload))
      ≡ linked c reg (link_device net w t reg.published_bundle reg.one_time_pre_keys)
unfolding link_with_code link_parsed
link_with_code-base64_url_encode codec payload body n net reg c w t carries e x =
    ap (λ str. link_parsed net reg c w (codec.parse str))
      (decoded_text codec payload body n carries)
    ∙ ap (link_parsed net reg c w) (carries.reads_back ∙ ap some e)
    ∙ rw x refl
