-- ===== src/Screens/Laws/ContactTests.antt =====
-- A scan of a small address book.
use hwfa.Common.{true, none, some, List, [], ◌∷◌, ◌≡◌, refl, String, All, unique_from}
use hwfa.Common.Text.{◌+++◌, starts_with, slice_after, text_length}
use hwfa.Common.Dict.{get, set, keys}
use hwfa.Common.Sort.{sort_desc}
use hwfa.Contacts.{normalize_e164, international, keep, with_default}
use hwfa.Discovery.{Reply, replied, ContactMatch, World, Network}
use hwfa.Discovery.Transport.{fetch, settle, read_json, request}
use hwfa.Discovery.Api.{and_then, get_salt, intersect}
use hwfa.Client.Discover.{hash_to_phone, with_field, matched, discover_contacts}
use hwfa.Screens.Contacts.{
  DeviceContact, Match, default_calling_code, name_by_number, handle_scan, unless_own, wanted,
  add_name, row,
}
use hwfa.Screens.Laws.Contacts.{IsRow, Rearranges, rows_of, handle_scan-IsRow}

abbrev world : World
world = record {
  client = record { base_url = "https://d"; token = some "a"; refresh_ = none };
  requests = [];
}

abbrev answer : Reply
answer = record {
  token = none;
  refresh_token = none;
  verified = true;
  user_id = none;
  account_id = none;
  otp_sent = true;
  dev_otp = none;
  bundle = none;
  my_devices = none;
  devices = none;
  pool_size = none;
  salt_b64 = some "s";
  matches = some (record { phone_hash_b64 = "s+15550002222"; user_id = "bob" } ∷ []);
}

abbrev server : Network
server log = replied (record { status = 200; text = ""; json = some answer })

abbrev joined : String → String → String
joined salt phone = salt +++ phone

-- We are in it ourselves, and Bob is in it twice.
abbrev book : List DeviceContact
book =
    record { name = "Me"; number = "+1 555 000 1111" }
    ∷ record { name = "Bob"; number = "(555) 000-2222" }
    ∷ record { name = "Robert"; number = "+15550002222" }
    ∷ []

abbrev given : List ContactMatch
given = record { phone_hash_b64 = "s+15550002222"; user_id = "bob" } ∷ []

abbrev in_order : List Match → List Match
in_order ms = ms

in_order-Rearranges : Rearranges in_order
in_order-Rearranges P ms h = h

scan_test :
    rows_of (handle_scan joined server in_order world (some "+15550001111") (some book)).0
    ≡ record { user_id = "bob"; phone_number = "+15550002222"; name = "Bob" } ∷ []
unfolding handle_scan unless_own wanted add_name row name_by_number get_salt and_then request fetch
    settle read_json intersect default_calling_code sort_desc starts_with normalize_e164
    international keep with_default slice_after text_length hash_to_phone get set with_field matched
    discover_contacts
scan_test = refl

handle_scan-IsRow_example :
    All
      (IsRow joined (some "+15550001111") book "s" given)
      (rows_of (handle_scan joined server in_order world (some "+15550001111") (some book)).0)
unfolding get_salt and_then request fetch settle read_json intersect default_calling_code sort_desc
    starts_with
handle_scan-IsRow_example =
    let w' = (get_salt server world).1 in
    let numbers = keys (name_by_number (some "+15550001111") (some "1") [] book) in
    handle_scan-IsRow joined server in_order world w'
      (intersect server w' (keys (hash_to_phone joined "s" [] (unique_from [] numbers)))).1
      (some "+15550001111") book "s" given in_order-Rearranges refl refl
