-- ===== src/Client/Discover.antt =====
-- Contacts by the hashes of their numbers, and the pool of one-time keys (client.ts: hashPhone,
-- findContact, discoverContacts, maintainPreKeys).
use hwfa.Common.{
  ℕ, ◌-◌, Option, none, some, List, [], ◌∷◌, ◌++◌, String, leb, if◌then◌else◌, unique_from,
}
use hwfa.Common.Dict.{Dict, get, set, keys}
use hwfa.Utf8.{utf8_encode}
use hwfa.Sha256.{sha256}
use hwfa.Discovery.{
  OneTimePreKeyPublic, ContactMatch, missing_field, Result, threw, returned, World, Network, truthy,
}
use hwfa.Discovery.Api.{upload_one_time_pre_keys, pool_size, get_salt, intersect}

-- `atob`, `btoa` and `charCodeAt` at every index.
pub record TextCodec : Type 0 where
  pub to_base64 : List ℕ → String
  pub from_base64 : String → List ℕ
  pub units : String → List ℕ

unfoldable pub hash_phone : TextCodec → String → String → String
hash_phone codec salt_b64 phone =
    codec.to_base64 (sha256 (codec.from_base64 salt_b64 ++ utf8_encode (codec.units phone)))

-- What follows an awaited method of Discovery whose reply has the field; it throws without it.
unfoldable pub with_field :
    {A B : Type 0} → Result (Option A) × World → (A → World → Result B × World) → Result B × World
with_field (threw e, w) k = (threw e, w)
with_field (returned none, w) k = (threw missing_field, w)
with_field (returned (some a), w) k = k a w

unfoldable pub first_user : List ContactMatch → Option String
first_user [] = none
first_user (m ∷ matches) = some m.user_id

pub record Contact : Type 0 where
  pub phone_number : String
  pub user_id : String

-- The hashes of the numbers, each with the last number that has it; `hash` is `hashPhone` with the salt
-- first.
unfoldable pub hash_to_phone :
    (String → String → String) → String → Dict String → List String → Dict String
hash_to_phone hash salt d [] = d
hash_to_phone hash salt d (phone ∷ phones) =
    hash_to_phone hash salt (set d (hash salt phone) phone) phones

-- `if (phoneNumber) out.push(…)`.
abbrev pub add_found : Option String → String → List Contact → List Contact
add_found none user_id rest = rest
add_found (some phone_number) user_id rest =
    if truthy (some phone_number)
    then record { phone_number = phone_number; user_id = user_id } ∷ rest
    else rest

-- The matches whose hash was asked for, with its number.
unfoldable pub matched : Dict String → List ContactMatch → List Contact
matched d [] = []
matched d (m ∷ matches) = add_found (get d m.phone_hash_b64) m.user_id (matched d matches)

module _ (hash : String → String → String) (net : Network) where
  unfoldable pub find_contact : World → String → Result (Option String) × World
  unfolding first_user
  find_contact w phone_number = with_field (get_salt net w) (λ salt w'.
      with_field (intersect net w' (hash salt phone_number ∷ []))
        (λ matches w''. (returned (first_user matches), w'')))

  unfoldable pub discover_hashed : World → List String → Result (List Contact) × World
  discover_hashed w unique = with_field (get_salt net w) (λ salt w'.
      let d = hash_to_phone hash salt [] unique in
      with_field (intersect net w' (keys d)) (λ matches w''. (returned (matched d matches), w'')))

  unfoldable pub discover_unique : World → List String → Result (List Contact) × World
  unfolding discover_hashed
  discover_unique w [] = (returned [], w)
  discover_unique w (phone ∷ phones) = discover_hashed w (phone ∷ phones)

  unfoldable pub discover_contacts : World → List String → Result (List Contact) × World
  unfolding discover_unique
  discover_contacts w phone_numbers = discover_unique w (unique_from [] phone_numbers)

-- `replenish` is the crypto provider's, none if it throws; the count of an absent pool size is no
-- number. Whatever is thrown is caught.
module _ (replenish : Option ℕ → Option (List OneTimePreKeyPublic)) (net : Network) where
  unfoldable pub upload_fresh : World → Option ℕ → World
  upload_fresh w count = elim (replenish count) [
    | none ↦ w
    | some [] ↦ w
    | some (key ∷ keys) ↦ (upload_one_time_pre_keys net w (key ∷ keys)).1
  ]

  -- `PREKEY_LOW_WATER` is 20 and `PREKEY_TARGET` 50.
  unfoldable pub maintain_pre_keys : World → World
  unfolding upload_fresh
  maintain_pre_keys w =
      let (result, w') = pool_size net w in
      elim result [
        | threw e ↦ w'
        | returned none ↦ upload_fresh w' none
        | returned (some size) ↦ if leb 20 size then w' else upload_fresh w' (some (50 - size))
      ]
