-- ===== src/Screens/Laws/Contacts.antt =====
-- The rows that a scan of the address book shows.
use hwfa.Common.{
  ℕ, length, true, false, Option, none, some, List, [], ◌∷◌, map, ◌≡◌, refl, sym, arith, String,
  eq_iff, includes, unique_from, is_some, or_else, or_default, same_text, All, if◌then◌else◌,
}
use mathlib.Core.Path.{subst}
use hwfa.Common.Dict.{Dict, get, keys, get-set}
use hwfa.Discovery.{ContactMatch, Result, threw, returned, World, Network}
use hwfa.Discovery.Api.{get_salt, intersect}
use hwfa.Client.Discover.{Contact, hash_to_phone, discover_contacts}
use hwfa.Client.Laws.Discover.{gives, IsFound, contacts_of, discover_contacts-IsFound}
use hwfa.Contacts.{normalize_e164}
use hwfa.Screens.Contacts.{
  DeviceContact, Match, Scan, label, unless_own, wanted, add_name, name_by_number,
  default_calling_code, row, show_rows, show_found, scan_names, handle_scan,
}

-- The name of the first contact that is looked up by this number.
unfoldable pub name_of : Option String → Option String → String → List DeviceContact → Option String
name_of own code n [] = none
name_of own code n (c ∷ contacts) =
    if same_text (wanted own code c) (some n) then some (label c n) else name_of own code n contacts

get-add_name :
    (names : Dict String) (w : Option String) (c : DeviceContact) (n : String)
    → get (add_name names w c) n
      ≡ or_else (get names n) (if same_text w (some n) then some (label c n) else none)
unfolding add_name
get-add_name names none c n = ground arith
get-add_name names (some e) c n = ground (arith, get-set names e n (label c e), eq_iff e n)

get-name_by_number :
    (own code : Option String) (names : Dict String) (contacts : List DeviceContact) (n : String)
    → get (name_by_number own code names contacts) n
      ≡ or_else (get names n) (name_of own code n contacts)
unfolding name_by_number name_of
get-name_by_number own code names [] n = ground arith
get-name_by_number own code names (c ∷ contacts) n = ground (
  arith,
  get-name_by_number own code (add_name names (wanted own code c) c) contacts n,
  get-add_name names (wanted own code c) c n,
)

includes-keys : (d : Dict String) (n : String) → includes n (keys d) ≡ is_some (get d n)
unfolding get
includes-keys [] n = refl
includes-keys ((k, v) ∷ d) n = ground (arith, includes-keys d n, eq_iff k n, eq_iff n k)

unless_own_other :
    (own o : Option String) (n : String)
    → same_text (unless_own own o) (some n) ≡ true
    → same_text (some n) own ≡ false
unfolding unless_own
unless_own_other own none n h = cc
unless_own_other none (some e) n h = refl
unless_own_other (some m) (some e) n h = ground (arith, eq_iff e n, eq_iff e m, eq_iff n m)

wanted_other :
    (own code : Option String) (c : DeviceContact) (n : String)
    → same_text (wanted own code c) (some n) ≡ true
    → same_text (some n) own ≡ false
unfolding wanted
wanted_other own code c n h = unless_own_other own (normalize_e164 c.number code) n h

name_of_other :
    (own code : Option String) (contacts : List DeviceContact) (n : String)
    → is_some (name_of own code n contacts) ≡ true
    → same_text (some n) own ≡ false
unfolding name_of
name_of_other own code [] n h = cc
name_of_other own code (c ∷ contacts) n h =
    ground (arith, wanted_other own code c n, name_of_other own code contacts n)

-- A row of the screen: the server gave its user for the hash of its number, which is not ours, and its name is
-- that of the first contact with that number.
abbrev pub IsRow :
    (String → String → String)
    → Option String
    → List DeviceContact
    → String
    → List ContactMatch
    → Match
    → Type 0
IsRow hash own contacts salt matches m =
    (name_of own (default_calling_code own) m.phone_number contacts ≡ some m.name)
    × (same_text (some m.phone_number) own ≡ false)
    × (gives matches (hash salt m.phone_number) m.user_id ≡ true)

-- Sorting keeps what holds of every row.
abbrev pub Rearranges : (List Match → List Match) → Type 1
Rearranges arrange = (P : Match → Type 0) (ms : List Match) → All P ms → All P (arrange ms)

abbrev pub rows_of : Scan → List Match
rows_of s = or_default s.matches []

module _ (hash : String → String → String) (own : Option String) (contacts : List DeviceContact)
    (salt : String) (matches : List ContactMatch) where
  names : Dict String
  names = name_by_number own (default_calling_code own) [] contacts

  row-IsRow :
      (c : Contact)
      → IsFound hash (keys names) salt matches c
      → IsRow hash own contacts salt matches (row names c)
  unfolding row names get
  row-IsRow c (asked, given) =
      let code = default_calling_code own in
      let n = c.phone_number in
      ground (
        arith,
        get-name_by_number own code [] contacts n,
        includes-keys (name_by_number own code [] contacts) n,
        name_of_other own code contacts n,
      )

  rows-IsRow :
      (found : List Contact)
      → All (IsFound hash (keys names) salt matches) found
      → All (IsRow hash own contacts salt matches) (map (row names) found)
  rows-IsRow [] h = tt
  rows-IsRow (c ∷ found) (h, hs) = (row-IsRow c h, rows-IsRow found hs)

  module _ (net : Network) (arrange : List Match → List Match) (sorts : Rearranges arrange) where
    rows_of-show_rows : (count : ℕ) (ms : List Match) → rows_of (show_rows count ms) ≡ ms
    unfolding show_rows
    rows_of-show_rows count [] = refl
    rows_of-show_rows count (m ∷ ms) = refl

    show_found-IsRow :
        (result : Result (List Contact))
        → All (IsFound hash (keys names) salt matches) (contacts_of result)
        → All
            (IsRow hash own contacts salt matches)
            (rows_of (show_found hash net arrange names result))
    unfolding show_found
    show_found-IsRow (threw e) h = tt
    show_found-IsRow (returned found) h =
        rw (rows_of-show_rows (length (keys names)) (arrange (map (row names) found))) (
          sorts (IsRow hash own contacts salt matches) (map (row names) found) (rows-IsRow found h))

    scan_names-IsRow :
        (w : World) (d : Dict String)
        → d ≡ names
        → All
            (IsFound hash (keys names) salt matches)
            (contacts_of (discover_contacts hash net w (keys names)).0)
        → All (IsRow hash own contacts salt matches) (rows_of (scan_names hash net arrange w d).0)
    unfolding scan_names
    scan_names-IsRow w [] e h = tt
    scan_names-IsRow w (x ∷ d) e h =
        subst
          (λ n.
            All (IsRow hash own contacts salt matches)
              (rows_of (show_found hash net arrange n (discover_contacts hash net w (keys n)).0)))
          (sym e) (show_found-IsRow (discover_contacts hash net w (keys names)).0 h)

-- Whoever a scan of the address book shows, given the server's salt and its matches: the server gave that user for the
-- hash of the number shown, the number is not our own, and the name is that of the first contact in the book
-- with that number, or the number where that contact has no name.
pub handle_scan-IsRow :
    (hash : String → String → String) (net : Network) (arrange : List Match → List Match)
    (w w' w'' : World) (own : Option String) (contacts : List DeviceContact) (salt : String)
    (matches : List ContactMatch)
    → Rearranges arrange
    → get_salt net w ≡ (returned (some salt), w')
    → intersect net w' (
        keys (
          hash_to_phone hash salt []
            (unique_from [] (keys (name_by_number own (default_calling_code own) [] contacts)))))
      ≡ (returned (some matches), w'')
    → All
        (IsRow hash own contacts salt matches)
        (rows_of (handle_scan hash net arrange w own (some contacts)).0)
unfolding handle_scan names
handle_scan-IsRow hash net arrange w w' w'' own [] salt matches r e f = tt
handle_scan-IsRow hash net arrange w w' w'' own (c ∷ contacts) salt matches r e f =
    let names = name_by_number own (default_calling_code own) [] (c ∷ contacts) in
    scan_names-IsRow hash own (c ∷ contacts) salt matches net arrange r w names refl
      (discover_contacts-IsFound hash net w w' w'' (keys names) salt matches e f)
