-- ===== src/KeyPool.antt =====
-- The one-time prekeys of a device (packages/crypto/src/identity.ts: generateRegistration,
-- mintOneTimePreKeys; packages/client/src/node/provider.ts: class NodeCryptoProvider). The key pairs
-- that libsignal generates are an argument: `drawn i` is the record of the `i`th pair of a call and
-- the base64 of its public half. Of the stores only that of the one-time prekeys is kept here.
pub mod Laws
use hwfa.Common.{
  ℕ, zero, suc, ◌+◌, Bool, true, false, Option, none, some, List, [], ◌∷◌, ◌++◌, String, ltb,
  if◌then◌else◌,
}
use hwfa.Common.Dict.{Dict}
use hwfa.SignalStores.{save_pre_key, get_pre_key, remove_pre_key}
use hwfa.Discovery.{OneTimePreKeyPublic}

module _ {R : Type 0} where
  -- The loop over `i`; the ids start at `start`.
  unfoldable pub mint_from :
      (ℕ → R × String) → ℕ → ℕ → ℕ → Dict R → List OneTimePreKeyPublic × Dict R
  mint_from drawn start i zero keys = ([], keys)
  mint_from drawn start i (suc n) keys =
      let (record', public_b64) = drawn i in
      let (out, keys') = mint_from drawn start (i + 1) n (save_pre_key keys (start + i) record') in
      (record { id = start + i; public_b64 = public_b64 } ∷ out, keys')

  unfoldable pub mint_one_time_pre_keys :
      (ℕ → R × String) → ℕ → ℕ → Dict R → List OneTimePreKeyPublic × Dict R
  unfolding mint_from
  mint_one_time_pre_keys drawn count start keys = mint_from drawn start 0 count keys

-- `Math.max` over the ids, from `m`.
unfoldable pub highest : ℕ → List OneTimePreKeyPublic → ℕ
highest m [] = m
highest m (k ∷ keys) = highest (if ltb m k.id then k.id else m) keys

pub record Provider (R : Type 0) : Type 0 where
  pub stores : Option (Dict R)
  pub pre_key_high : ℕ

-- What changes the pool, in any order.
pub data Event (R : Type 0) : Type 0 where
  registered replenished : (ℕ → R × String) → ℕ → Event R
  used : ℕ → Event R

abbrev pub no_keys : {R : Type 0} → Provider R
no_keys = record { stores = none; pre_key_high = 0 }

module _ {R : Type 0} where
  -- `generateRegistration`: fresh stores, whose ids start at 1.
  unfoldable pub generate_registration :
      (ℕ → R × String) → ℕ → Provider R → List OneTimePreKeyPublic × Provider R
  unfolding mint_from highest
  generate_registration drawn one_time_count p =
      let (keys, store) = mint_from drawn 1 0 one_time_count [] in
      (keys, record { stores = some store; pre_key_high = highest 0 keys })

  -- It throws, and none is returned, before a registration.
  unfoldable pub replenish_one_time_pre_keys :
      (ℕ → R × String) → ℕ → Provider R → Option (List OneTimePreKeyPublic) × Provider R
  unfolding mint_one_time_pre_keys
  replenish_one_time_pre_keys drawn count p = elim p.stores [
    | none ↦ (none, p)
    | some store ↦
        let (keys, store') = mint_one_time_pre_keys drawn count (p.pre_key_high + 1) store in
        (some keys, record { stores = some store'; pre_key_high = p.pre_key_high + count })
  ]

  -- libsignal takes out the key that a first message names.
  unfoldable pub use_pre_key : ℕ → Provider R → Provider R
  use_pre_key id p = elim p.stores [
    | none ↦ p
    | some store ↦ record p { stores = some (remove_pre_key store id) }
  ]

  unfoldable pub step : Provider R → Event R → Provider R
  unfolding generate_registration replenish_one_time_pre_keys use_pre_key
  step p (registered drawn count) = (generate_registration drawn count p).1
  step p (replenished drawn count) = (replenish_one_time_pre_keys drawn count p).1
  step p (used id) = use_pre_key id p

  unfoldable pub run : Provider R → List (Event R) → Provider R
  run p [] = p
  run p (e ∷ es) = run (step p e) es

  -- The private half of a key, if the device still has it.
  unfoldable pub key_at : Provider R → ℕ → Option R
  key_at p id = elim p.stores [ none ↦ none | some store ↦ get_pre_key store id ]
