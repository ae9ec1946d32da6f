-- ===== src/Registration/Laws.antt =====
-- What a published bundle says is what the device can answer for.
pub mod Unary
mod Tests
use hwfa.Common.{
  ℕ, zero, suc, ◌+◌, Bool, true, false, Option, none, some, List, [], ◌∷◌, ◌≡◌, refl, sym, ap, ◌∙◌,
  arith, String, or_default,
}
use hwfa.Common.Dict.{get, set, get-set_self}
use hwfa.SignalStores.{
  get_pre_key, get_signed_pre_key, get_kyber_pre_key, save_signed_pre_key, save_kyber_pre_key,
}
use hwfa.Common.Digits.{to_text}
use hwfa.KeyPool.{mint_from}
use hwfa.KeyPool.Laws.{mint_from-at}
use hwfa.Registration.{
  Bytes, Primitives, PreKeyRecord, SignedPreKeyRecord, KyberPreKeyRecord, Stores, GenerateOptions,
  Draws, DeviceRegistration, PreKeyBundle, drawn_key, signed_record, kyber_record,
  registration_id_of, first_key, id_of, public_of, generate_registration, one_time_part,
  to_pre_key_bundle,
}

-- What is relied on: keys and bytes read back as written, and a signature is verified by the public half of the key that
-- made it.
pub record IsSound {K P Q E : Type 0} (prim : Primitives K P Q E) : Type 0 where
  pub base64 : (b : Bytes) → prim.from_base64 (prim.to_base64 b) ≡ b
  pub key : (k : P) → prim.deserialize (prim.serialize k) ≡ some k
  pub kem_key : (k : E) → prim.kem_deserialize (prim.kem_serialize k) ≡ some k
  pub signature : (k : K) (b : Bytes) → prim.verify (prim.get_public_key k) b (prim.sign k b) ≡ true

module _ {K P Q E : Type 0} (prim : Primitives K P Q E) where
  -- The one-time key that a bundle offers: none, or one whose private half is in the pool.
  abbrev pub IsOffered : Stores K P Q → ℕ → PreKeyBundle P E → Type 0
  IsOffered s zero b = (b.pre_key_id ≡ none) × (b.pre_key_public ≡ none)
  IsOffered s (suc count) b =
      (r : PreKeyRecord K P) × (get_pre_key s.pre_key 1 ≡ some r)
      × (b.pre_key_id ≡ some 1)
      × (b.pre_key_public ≡ some (prim.get_public_key r.private_key))

  -- The stores have the private half of each key of the bundle under its id, and the identity key has signed the
  -- two keys that are signed.
  pub record IsHeld (s : Stores K P Q) (count : ℕ) (b : PreKeyBundle P E) : Type 0 where
    pub registration : b.registration_id ≡ s.registration_id
    pub identity : b.identity_key ≡ prim.get_public_key s.identity_key
    pub signed :
        (r : SignedPreKeyRecord K P) × (get_signed_pre_key s.signed_pre_key b.signed_pre_key_id
          ≡ some r)
        × (b.signed_pre_key_public ≡ prim.get_public_key r.private_key)
    pub signed_by :
        prim.verify b.identity_key
          (prim.serialize b.signed_pre_key_public)
          b.signed_pre_key_signature
        ≡ true
    pub kyber :
        (r : KyberPreKeyRecord Q) × (get_kyber_pre_key s.kyber_pre_key b.kyber_pre_key_id ≡ some r)
        × (b.kyber_pre_key_public ≡ prim.kem_public_key r.key_pair)
    pub kyber_by :
        prim.verify b.identity_key
          (prim.kem_serialize b.kyber_pre_key_public)
          b.kyber_pre_key_signature
        ≡ true
    pub one_time : IsOffered s count b

  -- How many one-time keys a registration draws.
  abbrev pub count_of : GenerateOptions → ℕ
  count_of opts = or_default opts.one_time_pre_key_count 10

  module _ (sound : IsSound prim) (draws : Draws K Q) (now : ℕ) (opts : GenerateOptions) where
    reg : DeviceRegistration K P Q
    reg = generate_registration prim draws now opts

    -- The bundle that a peer reads.
    read : ℕ → PreKeyBundle P E
    read count = record {
      registration_id = 1 + draws.random;
      device_id = or_default opts.device_id 1;
      pre_key_id = elim count [ zero ↦ none | suc n ↦ some 1 ];
      pre_key_public = elim count [
        | zero ↦ none
        | suc n ↦ some (prim.get_public_key (draws.one_time 0))
      ];
      signed_pre_key_id = or_default opts.signed_pre_key_id 1;
      signed_pre_key_public = prim.get_public_key draws.signed;
      signed_pre_key_signature =
          prim.sign draws.identity (prim.serialize (prim.get_public_key draws.signed));
      identity_key = prim.get_public_key draws.identity;
      kyber_pre_key_id = or_default opts.kyber_pre_key_id 1;
      kyber_pre_key_public = prim.kem_public_key draws.kyber;
      kyber_pre_key_signature =
          prim.sign draws.identity (prim.kem_serialize (prim.kem_public_key draws.kyber));
    }

    key_reads :
        (k : P) → prim.deserialize (prim.from_base64 (prim.to_base64 (prim.serialize k))) ≡ some k
    key_reads k = rw (sound.base64 (prim.serialize k)) (sound.key k)

    kem_key_reads :
        (k : E)
        → prim.kem_deserialize (prim.from_base64 (prim.to_base64 (prim.kem_serialize k))) ≡ some k
    kem_key_reads k = rw (sound.base64 (prim.kem_serialize k)) (sound.kem_key k)

    -- The one-time part of the bundle.
    one_time_reads :
        (count : ℕ)
        → let keys = (mint_from (drawn_key prim draws.one_time) 1 0 count []).0 in
          one_time_part prim (id_of (first_key keys)) (public_of (first_key keys))
          ≡ some ((read count).pre_key_id, (read count).pre_key_public)
    unfolding one_time_part read mint_from first_key
    one_time_reads zero = refl
    one_time_reads (suc n) = rw (key_reads (prim.get_public_key (draws.one_time 0))) refl

    bundle_reads : to_pre_key_bundle prim reg.published_bundle ≡ some (read (count_of opts))
    unfolding reg read generate_registration to_pre_key_bundle registration_id_of signed_record
        kyber_record
    bundle_reads =
        rw
          (
            one_time_reads (count_of opts),
            key_reads (prim.get_public_key draws.signed),
            key_reads (prim.get_public_key draws.identity),
            kem_key_reads (prim.kem_public_key draws.kyber),
            sound.base64
                (prim.sign draws.identity (prim.serialize (prim.get_public_key draws.signed))),
            sound.base64
                (prim.sign draws.identity (prim.kem_serialize (prim.kem_public_key draws.kyber))),
            to_pre_key_bundle,
          )
          refl

    one_time_held :
        (count : ℕ)
        → IsOffered
            (record reg.stores {
              pre_key = (mint_from (drawn_key prim draws.one_time) 1 0 count []).1;
            })
            count
            (read count)
    unfolding read reg
    one_time_held zero = (refl, refl)
    one_time_held (suc n) = (
      (drawn_key prim draws.one_time 0).0,
      mint_from-at (drawn_key prim draws.one_time) 1 0 (suc n) [] 0 (omega arith),
      refl,
      refl,
    )

    read-IsHeld : IsHeld reg.stores (count_of opts) (read (count_of opts))
    unfolding reg read generate_registration registration_id_of signed_record kyber_record
        get_signed_pre_key get_kyber_pre_key save_signed_pre_key save_kyber_pre_key set get
    read-IsHeld = record {
      registration = refl;
      identity = refl;
      signed = (
        signed_record prim draws now (or_default opts.signed_pre_key_id 1),
        get-set_self [] (to_text 10 (or_default opts.signed_pre_key_id 1)) _,
        refl,
      );
      signed_by =
          sound.signature draws.identity (prim.serialize (prim.get_public_key draws.signed));
      kyber = (
        kyber_record prim draws now (or_default opts.kyber_pre_key_id 1),
        get-set_self [] (to_text 10 (or_default opts.kyber_pre_key_id 1)) _,
        refl,
      );
      kyber_by =
          sound.signature draws.identity (prim.kem_serialize (prim.kem_public_key draws.kyber));
      one_time = one_time_held (count_of opts);
    }

-- A peer that reads the bundle of a registration gets keys that the device can answer for: libsignal's own laws given, the bundle
-- reads, its identity key is that of the stores and signed both of its signed keys, and the stores hold
-- the private half of its signed key, of its encapsulation key and, unless no one-time keys were
-- asked for, of its one-time key, each under the id in the bundle.
pub to_pre_key_bundle-generate_registration :
    {K P Q E : Type 0} (prim : Primitives K P Q E) (draws : Draws K Q) (now : ℕ)
    (opts : GenerateOptions)
    → IsSound prim
    → let r = generate_registration prim draws now opts in
      (b : PreKeyBundle P E) × (to_pre_key_bundle prim r.published_bundle ≡ some b)
      × IsHeld prim r.stores (count_of prim opts) b
unfolding reg
to_pre_key_bundle-generate_registration prim draws now opts sound = (
  read prim sound draws now opts (count_of prim opts),
  bundle_reads prim sound draws now opts,
  read-IsHeld prim sound draws now opts,
)
