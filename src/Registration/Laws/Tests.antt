-- ===== src/Registration/Laws/Tests.antt =====
-- A small registration: keys are numbers, and bytes are written in unary.
use hwfa.Common.{ℕ, ◌+◌, Bool, false, Option, none, some, [], ◌∷◌, ◌≡◌, refl, arith, nat_eq}
use hwfa.Registration.{
  Bytes, Primitives, GenerateOptions, Draws, PreKeyBundle, generate_registration, to_pre_key_bundle,
}
use hwfa.Registration.Laws.Unary.{write, read_from, read-write}
use hwfa.Registration.Laws.{IsSound, IsHeld, to_pre_key_bundle-generate_registration}

one_number : Bytes → Option ℕ
one_number (k ∷ []) = some k
one_number _ = none

starts_by : ℕ → Bytes → Bool
starts_by k [] = false
starts_by k (x ∷ b) = nat_eq k x

abbrev small : Primitives ℕ ℕ ℕ ℕ
small = record {
  get_public_key = λ k. k;
  sign = λ k b. k ∷ b;
  verify = λ k b s. starts_by k s;
  serialize = λ k. k ∷ [];
  deserialize = one_number;
  kem_public_key = λ k. k;
  kem_serialize = λ k. k ∷ [];
  kem_deserialize = one_number;
  to_base64 = write;
  from_base64 = read_from 0;
}

small-IsSound : IsSound small
unfolding one_number starts_by
small-IsSound = record {
  base64 = read-write;
  key = λ k. refl;
  kem_key = λ k. refl;
  signature = λ k b. ground arith;
}

abbrev draws : Draws ℕ ℕ
draws = record { identity = 3; random = 7; signed = 4; kyber = 5; one_time = λ i. 10 + i }

abbrev opts : GenerateOptions
opts = record {
  device_id = some 2;
  one_time_pre_key_count = some 2;
  signed_pre_key_id = none;
  kyber_pre_key_id = none;
}

to_pre_key_bundle-generate_registration_example :
    let r = generate_registration small draws 99 opts in
    (b : PreKeyBundle ℕ ℕ) × (to_pre_key_bundle small r.published_bundle ≡ some b)
    × IsHeld small r.stores 2 b
to_pre_key_bundle-generate_registration_example =
    to_pre_key_bundle-generate_registration small draws 99 opts small-IsSound
