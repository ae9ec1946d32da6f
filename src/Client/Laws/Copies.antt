-- ===== src/Client/Laws/Copies.antt =====
-- The copies that sendText makes of a message.
use hwfa.Common.{
  ℕ, false, ◌⊎◌, none, some, List, [], ◌∷◌, ◌++◌, ◌≡◌, ◌≢◌, refl, sym, ap, ◌∙◌, arith, String, ◌==◌,
  eq_iff, Option-cases, Bool-cases, inl, inr, if◌then◌else◌,
}
use mathlib.Core.Path.{subst}
use mathlib.Core.List.{append-nil, append_assoc}
use hwfa.Common.Dict.{get, set, get-set}
use hwfa.Models.{send}
use hwfa.Client.{Client, Effect, sent, effect}
use hwfa.Client.Messages.{
  Services, Bundle, EncryptedMessage, cached_at, devices_for_peer, ensure_session, submission,
  send_to_device, send_all,
}

module _ (services : Services) (c : Client) (now socket : ℕ) (me peer text ref : String) where
  -- The number of a device: known, or that of the bundle that Discovery has for it.
  abbrev pub IsDevice : String → ℕ → Type 0
  IsDevice d k =
      (get c.peer_device d ≡ some k)
      ⊎ ((b : Bundle) × (services.fetch_bundle d ≡ some b) × (b.device_id ≡ k))

  abbrev pub HasNoSession : String → Type 0
  HasNoSession d =
      (services.fetch_bundle d ≡ none)
      ⊎ ((b : Bundle) × (services.fetch_bundle d ≡ some b)
          × (services.establish_session d b ≡ false))

  -- No session can be made with the device, or the text cannot be encrypted for it.
  abbrev pub IsOutOfReach : String → Type 0
  IsOutOfReach d = HasNoSession d ⊎ ((k : ℕ) × IsDevice d k × (services.encrypt d k text ≡ none))

  -- The copy for a device: the encrypted text, from us; the peer's own has the reference, no other.
  abbrev pub copy_for : String → ℕ → EncryptedMessage → Effect
  copy_for d k enc = sent socket (
      send
        (record {
          recipient_id = d;
          recipient_device = k;
          sender_id = me;
          sender_device = c.device_id;
          type = enc.type;
          ciphertext = enc.ciphertext_b64;
          timestamp = now;
        })
        (if d == peer then some ref else none))

  -- What is sent to these devices, in order: the text, encrypted for the device, to each that is not
  -- ours and not out of reach.
  pub data Copies : List String → List Effect → Type 0 where
    all_sent : Copies [] []
    ours : {ds : List String} {es : List Effect} → Copies ds es → Copies (me ∷ ds) es
    out_of_reach :
        {ds : List String} {es : List Effect} (d : String)
        → d ≢ me
        → IsOutOfReach d
        → Copies ds es
        → Copies (d ∷ ds) es
    copied :
        {ds : List String} {es : List Effect} (d : String) (k : ℕ) (enc : EncryptedMessage)
        → d ≢ me
        → IsDevice d k
        → services.encrypt d k text ≡ some enc
        → Copies ds es
        → Copies (d ∷ ds) (copy_for d k enc ∷ es)

  -- A later state of the client: the devices that it knows are as at first, or as Discovery says.
  abbrev Inherits : Client → Type 0
  Inherits x =
      (x.device_id ≡ c.device_id)
      × ((d : String) (k : ℕ) → get x.peer_device d ≡ some k → IsDevice d k)

  effects-ensure_session :
      (x : Client) (d : String) → (ensure_session services x d).1.effects ≡ x.effects
  unfolding ensure_session
  effects-ensure_session x d = ground arith

  device_id-ensure_session :
      (x : Client) (d : String) → (ensure_session services x d).1.device_id ≡ x.device_id
  unfolding ensure_session
  device_id-ensure_session x d = ground arith

  -- The devices that the client knows are as before, or this one has the number of its bundle.
  peer_device-ensure_session :
      (x : Client) (d : String)
      → let x' = (ensure_session services x d).1 in
        (x'.peer_device ≡ x.peer_device)
        ⊎ ((b : Bundle) × (services.fetch_bundle d ≡ some b)
            × (x'.peer_device ≡ set x.peer_device d b.device_id))
  unfolding ensure_session
  peer_device-ensure_session x d = elim (Option-cases (get x.peer_device d)) [
    | inr (k, e) ↦ inl (ground (arith, e))
    | inl e ↦ elim (Option-cases (services.fetch_bundle d)) [
      | inl f ↦ inl (ground (arith, e, f))
      | inr (b, f) ↦ elim (Bool-cases (services.establish_session d b)) [
        | inl g ↦ inr (b, f, ground (arith, e, f, g))
        | inr g ↦ inl (ground (arith, e, f, g))
      ]
    ]
  ]

  known-ensure_session :
      (x : Client) (d : String)
      → Inherits x
      → (e : String) (k : ℕ) → get (ensure_session services x d).1.peer_device e ≡ some k
      → IsDevice e k
  known-ensure_session x d (same, h) e k g = elim (peer_device-ensure_session x d) [
    | inl p ↦ h e k (rw p at g)
    | inr (b, f, p) ↦
        let named : (if d == e then some b.device_id else get x.peer_device e) ≡ some k =
          sym (get-set x.peer_device d e b.device_id) ∙ (rw p at g) in
        elim (Bool-cases (d == e)) [
          | inl i ↦
              let here : d ≡ e = (eq_iff d e).0 i in
              inr (b, rw (← here) f, ground (arith, i, named))
          | inr i ↦ h e k (ground (arith, i, named))
        ]
  ]

  session_lem :
      (x : Client) (d : String) (k : ℕ)
      → Inherits x
      → (ensure_session services x d).0 ≡ some k
      → IsDevice d k
  unfolding ensure_session
  session_lem x d k (same, h) g = elim (Option-cases (get x.peer_device d)) [
    | inr (n, e) ↦ h d k (ground (arith, e, g))
    | inl e ↦ elim (Option-cases (services.fetch_bundle d)) [
      | inl f ↦ absurd (ground (arith, e, f, g))
      | inr (b, f) ↦ inr (b, f, ground (arith, e, f, g))
    ]
  ]

  no_session_lem :
      (x : Client) (d : String) → (ensure_session services x d).0 ≡ none → HasNoSession d
  unfolding ensure_session
  no_session_lem x d g = elim (Option-cases (services.fetch_bundle d)) [
    | inl f ↦ inl f
    | inr (b, f) ↦ inr (b, f, ground (arith, f, g))
  ]

  Inherits-ensure_session :
      (x : Client) (d : String) → Inherits x → Inherits (ensure_session services x d).1
  Inherits-ensure_session x d h = (device_id-ensure_session x d ∙ h.0, known-ensure_session x d h)

  -- What one turn of the loop does for a device that is not ours.
  abbrev Turn : Client → String → Client → Type 0
  Turn x d x' =
      Inherits x'
      × (((x'.effects ≡ x.effects) × IsOutOfReach d)
          ⊎ ((k : ℕ) × ((enc : EncryptedMessage) × IsDevice d k
                × (services.encrypt d k text ≡ some enc)
                × (x'.effects ≡ x.effects ++ copy_for d k enc ∷ []))))

  send_to_device_lem :
      (x : Client) (d : String)
      → Inherits x
      → Turn x d (send_to_device services x now socket me peer text ref d)
  unfolding send_to_device submission
  send_to_device_lem x d h =
      let x' = (ensure_session services x d).1 in
      let h' = Inherits-ensure_session x d h in
      elim (Option-cases (ensure_session services x d).0) [
        | inl e ↦
            rw (e, send_to_device)
              (h', inl (effects-ensure_session x d, inl (no_session_lem x d e)))
        | inr (k, e) ↦ elim (Option-cases (services.encrypt d k text)) [
          | inl f ↦
              rw (e, f, send_to_device)
                (h', inl (effects-ensure_session x d, inr (k, session_lem x d k h e, f)))
          | inr (enc, f) ↦
              let reference = if d == peer then some ref else none in
              let eq : send_to_device services x now socket me peer text ref d
                  ≡ effect x'
                      (sent socket (send (submission services x' now me d k enc) reference)) =
                rw (e, f, send_to_device) refl in
              let named : sent socket (send (submission services x' now me d k enc) reference)
                  ≡ copy_for d k enc =
                ap
                  (λ n. sent socket (
                    send (record (submission services x' now me d k enc) { sender_device = n })
                      reference))
                  h'.0 in
              let same : x'.effects ++ copy_for d k enc ∷ [] ≡ x.effects ++ copy_for d k enc ∷ [] =
                ap (λ es. es ++ copy_for d k enc ∷ []) (effects-ensure_session x d) in
              let turn : Turn x d (effect x' (copy_for d k enc)) =
                (h', inr (k, (enc, session_lem x d k h e, f, same))) in
              subst (λ y. Turn x d y) (sym (eq ∙ ap (λ y. effect x' y) named)) turn
        ]
      ]

  -- From this state on these devices get their copies.
  abbrev Sends : Client → List String → Client → Type 0
  Sends x ds x' = (new : List Effect) × (x'.effects ≡ x.effects ++ new) × Copies ds new

  Sends-Turn :
      (x x' x'' : Client) (d : String) (ds : List String)
      → d ≢ me
      → Turn x d x'
      → Sends x' ds x''
      → Sends x (d ∷ ds) x''
  Sends-Turn x x' x'' d ds n (h, inl (same, out)) (new, e, rest) =
      (new, e ∙ ap (λ es. es ++ new) same, out_of_reach d n out rest)
  Sends-Turn x x' x'' d ds n (h, inr (k, (enc, device, f, more))) (new, e, rest) = (
    copy_for d k enc ∷ new,
    e ∙ ap (λ es. es ++ new) more ∙ append_assoc x.effects (copy_for d k enc ∷ []) new,
    copied d k enc n device f rest,
  )

  pub send_all_lem :
      (x : Client) (ds : List String)
      → Inherits x
      → Sends x ds (send_all services x now socket me peer text ref ds)
  unfolding send_all
  send_all_lem x [] h = ([], sym (append-nil x.effects), all_sent)
  send_all_lem x (d ∷ ds) h = elim (Bool-cases (d == me)) [
    | inl e ↦
        let (new, f, rest) = send_all_lem x ds h in
        let own : me ≡ d = sym ((eq_iff d me).0 e) in
        rw (e, send_all) (new, f, subst (λ u. Copies (u ∷ ds) new) own (ours rest))
    | inr e ↦
        let x' = send_to_device services x now socket me peer text ref d in
        let turn = send_to_device_lem x d h in
        let other : d ≢ me = ground (arith, e, eq_iff d me) in
        rw (e, send_all)
          (Sends-Turn x x' (send_all services x' now socket me peer text ref ds) d ds other turn
            (send_all_lem x' ds turn.0))
  ]

  -- Looking the devices up changes only the cache of them.
  pub start_lem :
      let c' = (devices_for_peer services c now peer).1 in (c'.effects ≡ c.effects) × Inherits c'
  unfolding devices_for_peer
  start_lem = elim (Option-cases (cached_at now (get c.peer_devices peer))) [
    | inl e ↦ rw (e, devices_for_peer) (refl, (refl, λ d k g. inl g))
    | inr (devices, e) ↦ rw (e, devices_for_peer) (refl, (refl, λ d k g. inl g))
  ]
