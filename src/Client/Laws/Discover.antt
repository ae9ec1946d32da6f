-- ===== src/Client/Laws/Discover.antt =====
-- The contacts that discovery returns are among the numbers asked for.
use hwfa.Common.{
  Bool, true, false, ◌||◌, Option, none, some, List, [], ◌∷◌, ◌≡◌, refl, arith, String, ◌==◌,
  includes, unique_from, All, All_imp, Bool-cases, inl, inr, eq_iff, ◌&&◌,
}
use hwfa.Common.Dict.{Dict, get, set, keys, get-set}
use hwfa.Discovery.{ContactMatch, Result, threw, returned, World, Network, truthy}
use hwfa.Discovery.Api.{get_salt, intersect}
use hwfa.Client.Discover.{
  Contact, with_field, hash_to_phone, add_found, matched, discover_hashed, discover_unique,
  discover_contacts,
}

or_true : (b : Bool) → b || true ≡ true
or_true b = ground arith

-- The server gave this user for the hash.
abbrev pub gives : List ContactMatch → String → String → Bool
gives [] h user_id = false
gives (m ∷ matches) h user_id =
    (m.phone_hash_b64 == h && m.user_id == user_id) || gives matches h user_id

-- The contact has a number of the list, and its user is who the server gave for that number's hash.
abbrev pub IsFound :
    (String → String → String) → List String → String → List ContactMatch → Contact → Type 0
IsFound hash phones salt matches c =
    (includes c.phone_number phones ≡ true)
    × (gives matches (hash salt c.phone_number) c.user_id ≡ true)

module _ (hash : String → String → String) (phones : List String) (salt : String) where
  -- Each entry is a number asked for, under its hash.
  IsAsked : Dict String → Type 0
  IsAsked d = (k p : String) → get d k ≡ some p → (includes p phones ≡ true) × (hash salt p ≡ k)

  set-IsAsked :
      (d : Dict String) (phone : String)
      → includes phone phones ≡ true
      → IsAsked d
      → IsAsked (set d (hash salt phone) phone)
  unfolding IsAsked
  set-IsAsked d phone h v k p e =
      ground (arith, get-set d (hash salt phone) k phone, eq_iff (hash salt phone) k, v k p)

  hash_to_phone-IsAsked :
      (d : Dict String) (asked : List String)
      → All (λ p. includes p phones ≡ true) asked
      → IsAsked d
      → IsAsked (hash_to_phone hash salt d asked)
  unfolding hash_to_phone
  hash_to_phone-IsAsked d [] h v = v
  hash_to_phone-IsAsked d (p ∷ asked) (h, hs) v =
      hash_to_phone-IsAsked (set d (hash salt p) p) asked hs (set-IsAsked d p h v)

  later :
      (m : ContactMatch) (matches : List ContactMatch) (c : Contact)
      → IsFound hash phones salt matches c
      → IsFound hash phones salt (m ∷ matches) c
  later m matches c (asked, given) = (
    asked,
    rw given (or_true (m.phone_hash_b64 == hash salt c.phone_number && m.user_id == c.user_id)),
  )

  add_found_all :
      (P : Contact → Type 0) (o : Option String) (user_id : String) (rest : List Contact)
      → ((p : String) → o ≡ some p → P (record { phone_number = p; user_id = user_id }))
      → All P rest
      → All P (add_found o user_id rest)
  add_found_all P none user_id rest f h = h
  add_found_all P (some p) user_id rest f h = elim (Bool-cases (truthy (some p))) [
    | inl e ↦ rw e (f p refl, h)
    | inr e ↦ rw e h
  ]

  given_first :
      (m : ContactMatch) (matches : List ContactMatch) (p : String)
      → hash salt p ≡ m.phone_hash_b64
      → gives (m ∷ matches) (hash salt p) m.user_id ≡ true
  given_first m matches p e =
      ground (arith, eq_iff m.phone_hash_b64 (hash salt p), eq_iff m.user_id m.user_id)

  matched-IsFound :
      (d : Dict String) (matches : List ContactMatch)
      → IsAsked d
      → All (IsFound hash phones salt matches) (matched d matches)
  unfolding matched IsAsked
  matched-IsFound d [] v = tt
  matched-IsFound d (m ∷ matches) v =
      add_found_all (IsFound hash phones salt (m ∷ matches)) (get d m.phone_hash_b64) m.user_id
        (matched d matches)
        (λ p e. ((v m.phone_hash_b64 p e).0, given_first m matches p (v m.phone_hash_b64 p e).1))
        (All_imp (later m matches) (matched d matches) (matched-IsFound d matches v))

same : (x : String) (xs : List String) → includes x (x ∷ xs) ≡ true
same x xs = ground (arith, eq_iff x x)

unique_from-includes :
    (seen xs : List String) → All (λ p. includes p xs ≡ true) (unique_from seen xs)
unique_from-includes seen [] = tt
unique_from-includes seen (x ∷ xs) =
    let keep : (ys : List String)
        → All (λ p. includes p xs ≡ true) ys
        → All (λ p. includes p (x ∷ xs) ≡ true) ys =
      All_imp (λ p h. rw h (or_true (p == x))) in
    elim (Bool-cases (includes x seen)) [
      | inl e ↦ rw e (keep _ (unique_from-includes seen xs))
      | inr e ↦ rw e (same x xs, keep _ (unique_from-includes (x ∷ seen) xs))
    ]

abbrev pub contacts_of : Result (List Contact) → List Contact
contacts_of (threw e) = []
contacts_of (returned out) = out

init-IsAsked :
    (hash : String → String → String) (phones : List String) (salt : String)
    → IsAsked hash phones salt []
unfolding IsAsked get
init-IsAsked hash phones salt k p e = cc

-- Whoever discovery returns, given the server's salt and its matches: the number is one of those asked
-- for, and the server gave the user for the hash of that very number.
pub discover_contacts-IsFound :
    (hash : String → String → String) (net : Network) (w w' w'' : World) (phones : List String)
    (salt : String) (matches : List ContactMatch)
    → get_salt net w ≡ (returned (some salt), w')
    → intersect net w' (keys (hash_to_phone hash salt [] (unique_from [] phones)))
      ≡ (returned (some matches), w'')
    → All (IsFound hash phones salt matches) (contacts_of (discover_contacts hash net w phones).0)
unfolding discover_contacts discover_unique discover_hashed with_field
discover_contacts-IsFound hash net w w' w'' phones salt matches e f =
    found (unique_from [] phones) (unique_from-includes [] phones) f
  where
    found :
        (unique : List String)
        → All (λ p. includes p phones ≡ true) unique
        → intersect net w' (keys (hash_to_phone hash salt [] unique))
          ≡ (returned (some matches), w'')
        → All (IsFound hash phones salt matches) (contacts_of (discover_unique hash net w unique).0)
    found [] h f = tt
    found (p ∷ ps) h f =
        rw (e, f)
          (matched-IsFound hash phones salt (hash_to_phone hash salt [] (p ∷ ps)) matches
            (hash_to_phone-IsAsked hash phones salt [] (p ∷ ps) h (init-IsAsked hash phones salt)))
