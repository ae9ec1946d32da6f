-- ===== src/Client/Linking.antt =====
-- A link code, made on one device and used on another (client.ts: createLinkCode, linkWithCode,
-- base64UrlEncode, base64UrlDecode). JSON, `atob` and `btoa` are parameters, texts that they make or
-- read are lists of code units.
use hwfa.Common.{ℕ, not, Option, none, some, List, String, if◌then◌else◌, or_default}
use hwfa.Base64Url.{to_standard, to_url_safe}
use hwfa.Utf8.{utf8_encode, utf8_decode}
use hwfa.Discovery.{
  PublishedKeyBundle, OneTimePreKeyPublic, Reply, bad_json, invalid_link_code, Result, threw,
  returned, World, Network, truthy,
}
use hwfa.Discovery.Api.{create_link_token, link_device}
use hwfa.Client.{Client}
use hwfa.Client.Connection.{onboarded}

-- The object of the code; `t` is the provisioning token.
pub record LinkPayload : Type 0 where
  pub v : ℕ
  pub t : Option String
  pub d : String
  pub r : String

-- `parse` reads the field `t` of the object, and is none if the text is no JSON.
pub record Codec : Type 0 where
  pub to_base64 : List ℕ → String
  pub from_base64 : String → List ℕ
  pub stringify : LinkPayload → List ℕ
  pub parse : List ℕ → Option (Option String)

-- What the crypto provider makes for this device.
pub record Registration : Type 0 where
  pub device_id : ℕ
  pub published_bundle : PublishedKeyBundle
  pub one_time_pre_keys : List OneTimePreKeyPublic

module _ (codec : Codec) where
  unfoldable pub base64_url_encode : List ℕ → String
  base64_url_encode str = to_url_safe (codec.to_base64 (utf8_encode str))

  unfoldable pub base64_url_decode : String → List ℕ
  base64_url_decode code = utf8_decode (codec.from_base64 (to_standard code))

  unfoldable pub create_link_code : Network → String → String → World → Result String × World
  unfolding base64_url_encode
  create_link_code net discovery_url relay_url w =
      let (result, w') = create_link_token net w in
      elim result [
        | threw e ↦ (threw e, w')
        | returned token' ↦
            let payload : LinkPayload = record {
              v = 1;
              t = token';
              d = discovery_url;
              r = relay_url;
            } in
            (returned (base64_url_encode (codec.stringify payload)), w')
      ]

-- The device id stands before the link is asked for; the relay is opened after it.
unfoldable pub linked :
    Client → Registration → Result Reply × World → Result Reply × (Client × World)
linked c reg (threw e, w) = (threw e, (record c { device_id = reg.device_id }, w))
linked c reg (returned reply, w) = elim reply.user_id [
  | none ↦ (returned reply, (record c { device_id = reg.device_id; user_id = none }, w))
  | some user_id ↦ (returned reply, (onboarded c reg.device_id user_id, w))
]

-- With what `JSON.parse` made of the code.
unfoldable pub link_parsed :
    Network
    → Registration
    → Client
    → World
    → Option (Option String)
    → Result Reply × (Client × World)
unfolding linked
link_parsed net reg c w none = (threw bad_json, (c, w))
link_parsed net reg c w (some t) =
    let after =
      linked c reg
        (link_device net w (or_default t "") reg.published_bundle reg.one_time_pre_keys) in
    if not (truthy t) then (threw invalid_link_code, (c, w)) else after

unfoldable pub link_with_code :
    Codec → Network → Registration → Client → World → String → Result Reply × (Client × World)
unfolding base64_url_decode link_parsed
link_with_code codec net reg c w code =
    link_parsed net reg c w (codec.parse (base64_url_decode codec code))
