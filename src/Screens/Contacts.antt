-- ===== src/Screens/Contacts.antt =====
-- The address book (apps/mobile/src/screens/ContactsScreen.tsx: handleFind, handleScan;
-- apps/mobile/src/contacts/deviceContacts.ts: readDeviceContacts). The native module and the dialog
-- for its permission are arguments, and so is the sort of the rows by `localeCompare`.
use hwfa.Common.{
  Bool, ◌&&◌, ◌||◌, Option, none, some, List, [], ◌∷◌, map, String, ℕ, ◌==◌, is_some, or_default,
  same_text, length, if◌then◌else◌,
}
use hwfa.Common.Text.{trim}
use hwfa.Common.Dict.{Dict, get, set, keys}
use hwfa.Contacts.{calling_code_of, normalize_e164}
use hwfa.Discovery.{Failure, Result, threw, returned, World, Network}
use hwfa.Client.Discover.{Contact, find_contact, discover_contacts}

pub record DeviceContact : Type 0 where
  pub name : String
  pub number : String

pub record Match : Type 0 where
  pub user_id : String
  pub phone_number : String
  pub name : String

-- `readDeviceContacts`: none if it throws. The answers of the native module and of the dialog are
-- looked at only where the code asks.
unfoldable pub read_device_contacts :
    Bool → Bool → Bool → Bool → Option (List DeviceContact) → Option (List DeviceContact)
read_device_contacts linked is_android already granted book =
    if linked then (if is_android && (already || granted) then book else some []) else none

-- A missing or empty own number gives no code.
unfoldable pub default_calling_code : Option String → Option String
unfolding calling_code_of
default_calling_code none = none
default_calling_code (some own) = if own == "" then none else calling_code_of own

unfoldable pub unless_own : Option String → Option String → Option String
unless_own own none = none
unless_own own (some e164) = if e164 == "" || same_text (some e164) own then none else some e164

-- The number that a contact is looked up by, if it has one that is not ours.
unfoldable pub wanted : Option String → Option String → DeviceContact → Option String
unfolding normalize_e164
wanted own code c = unless_own own (normalize_e164 c.number code)

-- `c.name || e164`.
abbrev pub label : DeviceContact → String → String
label c e164 = if c.name == "" then e164 else c.name

unfoldable pub add_name : Dict String → Option String → DeviceContact → Dict String
add_name names none c = names
add_name names (some e164) c =
    if is_some (get names e164) then names else set names e164 (label c e164)

-- The loop that fills `nameByNumber`.
unfoldable pub name_by_number :
    Option String → Option String → Dict String → List DeviceContact → Dict String
unfolding wanted add_name
name_by_number own code names [] = names
name_by_number own code names (c ∷ contacts) =
    name_by_number own code (add_name names (wanted own code c) c) contacts

unfoldable pub row : Dict String → Contact → Match
row names f = record {
  user_id = f.user_id;
  phone_number = f.phone_number;
  name = or_default (get names f.phone_number) f.phone_number;
}

pub data Note : Type 0 where
  no_contacts no_numbers not_linked : Note
  none_found : ℕ → Note
  failed : Failure → Note

-- What the screen shows after a scan.
pub record Scan : Type 0 where
  pub matches : Option (List Match)
  pub note : Option Note

abbrev noted : Note → Scan
noted note = record { matches = none; note = some note }

unfoldable pub show_rows : ℕ → List Match → Scan
show_rows count [] = record { matches = some []; note = some (none_found count) }
show_rows count (m ∷ ms) = record { matches = some (m ∷ ms); note = none }

module _ (hash : String → String → String) (net : Network) (arrange : List Match → List Match) where
  unfoldable pub show_found : Dict String → Result (List Contact) → Scan
  unfolding row show_rows
  show_found names (threw e) = noted (failed e)
  show_found names (returned found) =
      show_rows (length (keys names)) (arrange (map (row names) found))

  unfoldable pub scan_names : World → Dict String → Scan × World
  unfolding show_found
  scan_names w [] = (noted no_numbers, w)
  scan_names w (e ∷ names) =
      let (result, w') = discover_contacts hash net w (keys (e ∷ names)) in
      (show_found (e ∷ names) result, w')

  unfoldable pub handle_scan : World → Option String → Option (List DeviceContact) → Scan × World
  unfolding scan_names name_by_number default_calling_code
  handle_scan w own none = (noted not_linked, w)
  handle_scan w own (some []) = (noted no_contacts, w)
  handle_scan w own (some (c ∷ contacts)) =
      scan_names w (name_by_number own (default_calling_code own) [] (c ∷ contacts))

  -- `handleFind`: the chat that it opens, if it opens one.
  unfoldable pub handle_find : World → String → Result (Option (String × String)) × World
  handle_find w phone =
      let (result, w') = find_contact hash net w (trim phone) in
      (
        elim result [
          | threw e ↦ threw e
          | returned none ↦ returned none
          | returned (some peer) ↦ returned (if peer == "" then none else some (peer, trim phone))
        ],
        w',
      )
