-- ===== src/SignalStores.antt =====
-- The protocol stores (packages/crypto/src/stores.ts). A `Map` over numbers is keyed by their
-- decimal text. The records and the keys are libsignal's: their types are parameters, and so is
-- the comparison of two keys. `none` stands for a thrown error.
pub mod Laws
mod Tests
use hwfa.Common.{
  ℕ, Bool, true, false, Option, none, some, List, [], ◌∷◌, String, is_some, length, includes,
  if◌then◌else◌,
}
use hwfa.Common.Text.{◌+++◌}
use hwfa.Common.Digits.{to_text}
use hwfa.Common.Dict.{Dict, get, set, delete}

abbrev pub addr_key : String → ℕ → String
addr_key name device = name +++ "." +++ to_text 10 device

module _ {R : Type 0} where
  unfoldable pub save_session : Dict R → String → ℕ → R → Dict R
  save_session sessions name device session = set sessions (addr_key name device) session

  unfoldable pub get_session : Dict R → String → ℕ → Option R
  get_session sessions name device = get sessions (addr_key name device)

  unfoldable pub get_existing_sessions : Dict R → List (String × ℕ) → Option (List R)
  unfolding get_session
  get_existing_sessions sessions [] = some []
  get_existing_sessions sessions ((name, device) ∷ addresses) =
      let rest = get_existing_sessions sessions addresses in
      elim (get_session sessions name device) [
        | none ↦ none
        | some session ↦ elim rest [ none ↦ none | some found ↦ some (session ∷ found) ]
      ]

  unfoldable pub has_session : Dict R → String → ℕ → Bool
  has_session sessions name device = is_some (get sessions (addr_key name device))

  unfoldable pub save_pre_key : Dict R → ℕ → R → Dict R
  save_pre_key keys id key = set keys (to_text 10 id) key

  unfoldable pub get_pre_key : Dict R → ℕ → Option R
  get_pre_key keys id = get keys (to_text 10 id)

  unfoldable pub remove_pre_key : Dict R → ℕ → Dict R
  remove_pre_key keys id = delete keys (to_text 10 id)

  abbrev pub count : Dict R → ℕ
  count keys = length keys

  unfoldable pub save_signed_pre_key : Dict R → ℕ → R → Dict R
  save_signed_pre_key keys id key = set keys (to_text 10 id) key

  unfoldable pub get_signed_pre_key : Dict R → ℕ → Option R
  get_signed_pre_key keys id = get keys (to_text 10 id)

pub record KyberPreKeys (R : Type 0) : Type 0 where
  pub keys : Dict R
  pub used : List String

module _ {R : Type 0} where
  unfoldable pub save_kyber_pre_key : KyberPreKeys R → ℕ → R → KyberPreKeys R
  save_kyber_pre_key s id key = record s { keys = set s.keys (to_text 10 id) key }

  unfoldable pub get_kyber_pre_key : KyberPreKeys R → ℕ → Option R
  get_kyber_pre_key s id = get s.keys (to_text 10 id)

  unfoldable pub mark_kyber_pre_key_used : KyberPreKeys R → ℕ → KyberPreKeys R
  mark_kyber_pre_key_used s id =
      if includes (to_text 10 id) s.used then s else record s { used = to_text 10 id ∷ s.used }

  unfoldable pub is_used : KyberPreKeys R → ℕ → Bool
  is_used s id = includes (to_text 10 id) s.used

pub data IdentityChange : Type 0 where
  new_or_unchanged replaced_existing : IdentityChange

-- `same k l` is `k.compare(l) === 0`.
module _ {K : Type 0} (same : K → K → Bool) where
  unfoldable pub save_identity : Dict K → String → ℕ → K → IdentityChange × Dict K
  save_identity known name device key =
      let k = addr_key name device in
      (
        elim (get known k) [
          | none ↦ new_or_unchanged
          | some existing ↦ if same existing key then new_or_unchanged else replaced_existing
        ],
        set known k key,
      )

  -- A key of an address that is not known is accepted.
  unfoldable pub is_trusted_identity : Dict K → String → ℕ → K → Bool
  is_trusted_identity known name device key = elim (get known (addr_key name device)) [
    | none ↦ true
    | some existing ↦ same existing key
  ]

unfoldable pub get_identity : {K : Type 0} → Dict K → String → ℕ → Option K
get_identity known name device = get known (addr_key name device)
