-- ===== src/SignalStores/Laws.antt =====
-- Trust on first use, one-time keys, and used keys.
use hwfa.Common.{
  ℕ, Bool, none, ◌≡◌, ◌≢◌, arith, String, ◌==◌, eq_iff, eq_refl, Bool-cases, inl, inr,
  if◌then◌else◌,
}
use hwfa.Common.Digits.{to_text, to_text_injective}
use hwfa.Common.Dict.{Dict, get-set_self, get-delete}
use hwfa.SignalStores.{
  addr_key, get_pre_key, remove_pre_key, new_or_unchanged, replaced_existing, save_identity,
  is_trusted_identity,
}

-- Saving a key for an address reports a replacement exactly if the key was not trusted there
-- before, and from then on a key is trusted there exactly if it is the same as the saved one.
pub is_trusted_identity-save_identity :
    {K : Type 0} (same : K → K → Bool) (known : Dict K) (name : String) (device : ℕ) (key other : K)
    → let (change, known') = save_identity same known name device key in
      (change ≡ (
        if is_trusted_identity same known name device key
        then new_or_unchanged
        else replaced_existing))
      × (is_trusted_identity same known' name device other ≡ same key other)
unfolding save_identity is_trusted_identity
is_trusted_identity-save_identity same known name device key other =
    (ground arith, rw (get-set_self known (addr_key name device) key, is_trusted_identity))

-- A one-time key that has been removed is not found any more, and every other key is found as
-- before.
pub get_pre_key-remove_pre_key :
    {R : Type 0} (keys : Dict R) (id other : ℕ)
    → id ≢ other
    → (get_pre_key (remove_pre_key keys id) id ≡ none)
      × (get_pre_key (remove_pre_key keys id) other ≡ get_pre_key keys other)
unfolding get_pre_key remove_pre_key
get_pre_key-remove_pre_key keys id other n = (
  rw (get-delete, eq_refl (to_text 10 id)),
  elim (Bool-cases (to_text 10 id == to_text 10 other)) [
    | inl e ↦
        absurd (n (to_text_injective id other ((eq_iff (to_text 10 id) (to_text 10 other)).0 e)))
    | inr e ↦ rw get-delete (rw e)
  ],
)
