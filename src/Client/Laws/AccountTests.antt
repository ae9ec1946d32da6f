-- ===== src/Client/Laws/AccountTests.antt =====
-- A link code, and contacts by their hashes, at small services.
use hwfa.Common.{
  ℕ, true, false, Option, none, some, List, [], ◌∷◌, ◌≡◌, refl, arith, String, ◌==◌, nat_eq,
  same_text, if◌then◌else◌,
}
use hwfa.Common.Dict.{get, set}
use hwfa.Common.Text.{◌+++◌, text_length}
use hwfa.Base64Url.Laws.{all_plain, equals}
use hwfa.Utf8.{utf8_from, utf8_encode}
use hwfa.Utf8.Laws.{well_formed}
use hwfa.Discovery.{PublishedKeyBundle, Reply, replied, ContactMatch, World, Network}
use hwfa.Discovery.Transport.{fetch, settle, read_json, request}
use hwfa.Discovery.Api.{and_then, get_salt, intersect, link_device}
use hwfa.Client.{init}
use hwfa.Client.Linking.{
  LinkPayload, Codec, Registration, base64_url_encode, linked, link_with_code,
}
use hwfa.Client.Discover.{hash_to_phone, with_field, matched, discover_contacts}
use hwfa.Client.Laws.Linking.{Carries, link_with_code-base64_url_encode}
use hwfa.Client.Laws.Discover.{contacts_of}

abbrev world : World
world = record {
  client = record { base_url = "https://d"; token = some "a"; refresh_ = none };
  requests = [];
}

abbrev answer : Reply
answer = record {
  token = some "new";
  refresh_token = some "r";
  verified = true;
  user_id = some "ada-2";
  account_id = some "ada";
  otp_sent = false;
  dev_otp = none;
  bundle = none;
  my_devices = none;
  devices = none;
  pool_size = none;
  salt_b64 = some "s";
  matches = some (record { phone_hash_b64 = "s+441"; user_id = "bob" } ∷ []);
}

abbrev server : Network
server log = replied (record { status = 200; text = ""; json = some answer })

-- The base64 of the one text that is sent: "t".
abbrev encode : List ℕ → String
encode [] = ""
encode (b ∷ bytes) = if nat_eq b 0x74 then "dA==" else ""

abbrev decode : String → List ℕ
decode s = if s == "dA==" then 0x74 ∷ [] else []

abbrev write_json : LinkPayload → List ℕ
write_json p = if same_text p.t (some "t") then 0x74 ∷ [] else []

abbrev read_text : List ℕ → Option (Option String)
read_text [] = none
read_text (c ∷ cs) = if nat_eq c 0x74 then some (some "t") else none

abbrev codec : Codec
codec = record {
  to_base64 = encode;
  from_base64 = decode;
  stringify = write_json;
  parse = read_text;
}

abbrev payload : LinkPayload
payload = record { v = 1; t = some "t"; d = "https://d"; r = "wss://r" }

abbrev bundle : PublishedKeyBundle
bundle = record {
  registration_id = 1;
  device_id = 2;
  identity_key_b64 = "k";
  signed_pre_key_id = 1;
  signed_pre_key_public_b64 = "p";
  signed_pre_key_signature_b64 = "s";
  kyber_pre_key_id = 1;
  kyber_pre_key_public_b64 = "p";
  kyber_pre_key_signature_b64 = "s";
  one_time_pre_key_id = none;
  one_time_pre_key_public_b64 = none;
}

abbrev registration : Registration
registration = record { device_id = 2; published_bundle = bundle; one_time_pre_keys = [] }

payload-Carries : Carries codec payload "dA" 2
unfolding well_formed utf8_encode utf8_from all_plain text_length equals
payload-Carries = record {
  reads_back = refl;
  well_formed_text = refl;
  shape = refl;
  plain = refl;
  padded = omega arith;
  whole = refl;
  decodes = refl;
}

link_with_code-base64_url_encode_example :
    link_with_code codec server registration init world
      (base64_url_encode codec (codec.stringify payload))
    ≡ linked init registration (link_device server world "t" bundle [])
link_with_code-base64_url_encode_example =
    link_with_code-base64_url_encode codec payload "dA" 2 server registration init world "t"
      payload-Carries refl refl

abbrev numbers : List String
numbers = "+441" ∷ "+442" ∷ "+441" ∷ []

abbrev joined : String → String → String
joined salt phone = salt +++ phone

abbrev found : List ContactMatch
found = record { phone_hash_b64 = "s+441"; user_id = "bob" } ∷ []

discover_test :
    contacts_of (discover_contacts joined server world numbers).0
    ≡ record { phone_number = "+441"; user_id = "bob" } ∷ []
unfolding discover_contacts get_salt intersect and_then request fetch settle read_json hash_to_phone
    get set with_field matched
discover_test = refl
