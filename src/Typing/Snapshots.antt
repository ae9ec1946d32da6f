-- ===== src/Typing/Snapshots.antt =====
-- A signal shows at once in the list that the screens read.
use hwfa.Common.{
  ℕ, ◌+◌, ◌<◌, Bool, true, false, none, some, List, [], ◌∷◌, ◌≡◌, refl, arith, String, eq_iff,
  eq_refl, includes, or_default, Bool-cases, Option-cases, inl, inr,
}
use hwfa.Common.Dict.{Dict, get, set, delete, get-set, get-delete}
use hwfa.Typing.{
  TypingStore, typing_ttl_ms, live, compute, same_list, invalidate, receive_typing, get_typing,
  senders_of, keep_senders, is_empty,
}

same_list_sound : (xs ys : List String) → same_list xs ys ≡ true → xs ≡ ys
unfolding same_list
same_list_sound [] [] h = refl
same_list_sound (x ∷ xs) (y ∷ ys) h = ground (arith, eq_iff x y, same_list_sound xs ys)
same_list_sound _ _ h = cc

-- After `invalidate` a reader gets what is computed afresh.
get_typing-invalidate :
    (s : TypingStore) (now t : ℕ) (c : String)
    → (get_typing (invalidate s now c) t c).0 ≡ compute s now c
unfolding get_typing invalidate
get_typing-invalidate s now t c = elim (Option-cases (get s.snapshots c)) [
  | inl e ↦ ground (arith, get-set s.snapshots c c (compute s now c), eq_refl c)
  | inr (prev, e) ↦ ground (
    arith,
    get-set s.snapshots c c (compute s now c),
    eq_refl c,
    same_list_sound prev (compute s now c),
  )
]

live-set :
    (now e : ℕ) (d : Dict ℕ) (k : String) → now < e → includes k (live now (set d k e)) ≡ true
unfolding live set
live-set now e [] k h = ground (arith, eq_refl k)
live-set now e ((j, f) ∷ d) k h = ground (arith, eq_iff j k, eq_iff k j, live-set now e d k h)

live-delete : (now : ℕ) (d : Dict ℕ) (k : String) → includes k (live now (delete d k)) ≡ false
unfolding live delete
live-delete now [] k = refl
live-delete now ((j, f) ∷ d) k = ground (arith, eq_iff j k, eq_iff k j, live-delete now d k)

-- A conversation with no entry has no name cached.
abbrev pub IsQuiet : TypingStore → String → Type 0
IsQuiet s c = get s.by_conv c ≡ none → or_default (get s.snapshots c) [] ≡ []

module _ (s : TypingStore) (now : ℕ) (c : String) where
  compute_of_some : (d : Dict ℕ) → get s.by_conv c ≡ some d → compute s now c ≡ live now d
  unfolding compute
  compute_of_some d e = ground arith

  compute_of_none : get s.by_conv c ≡ none → compute s now c ≡ []
  unfolding compute
  compute_of_none e = ground arith

  get_typing_quiet : IsQuiet s c → get s.by_conv c ≡ none → (get_typing s now c).0 ≡ []
  unfolding get_typing
  get_typing_quiet q e = ground (arith, q e, compute_of_none e)

get-set_self : (d : Dict (Dict ℕ)) (c : String) (v : Dict ℕ) → get (set d c v) c ≡ some v
get-set_self d c v = simp (get-set, eq_refl)

get-delete_self : (d : Dict (Dict ℕ)) (c : String) → get (delete d c) c ≡ none
get-delete_self d c = simp (get-delete, eq_refl)

module _ (s : TypingStore) (now : ℕ) (c sender : String) where
  compute-started :
      (s' : TypingStore) (d : Dict ℕ)
      → s'.by_conv ≡ set s.by_conv c (set d sender (now + typing_ttl_ms))
      → includes sender (compute s' now c) ≡ true
  compute-started s' d e =
      let senders = set d sender (now + typing_ttl_ms) in
      let found : get s'.by_conv c ≡ some senders = rw e (get-set_self s.by_conv c senders) in
      rw (compute_of_some s' now c senders found)
        (live-set now (now + typing_ttl_ms) d sender (omega arith))

  compute-stopped :
      (d : Dict ℕ) → includes sender (compute (keep_senders s c (delete d sender)) now c) ≡ false
  compute-stopped d = elim (Bool-cases (is_empty (delete d sender))) [
    | inl e ↦
        let gone : get (keep_senders s c (delete d sender)).by_conv c ≡ none =
          unfold keep_senders in rw e (get-delete_self s.by_conv c) in
        rw (compute_of_none (keep_senders s c (delete d sender)) now c gone)
    | inr e ↦
        let left : get (keep_senders s c (delete d sender)).by_conv c ≡ some (delete d sender) =
          unfold keep_senders in rw e (get-set_self s.by_conv c (delete d sender)) in
        rw (compute_of_some (keep_senders s c (delete d sender)) now c (delete d sender) left)
          (live-delete now d sender)
  ]

  -- Right after a signal the list of the conversation has the sender exactly if the signal said
  -- that it types, provided that a conversation with no entry had no name cached before.
  pub receive_typing_lem :
      (typing : Bool)
      → IsQuiet s c
      → includes sender (get_typing (receive_typing s now c sender typing) now c).0 ≡ typing
  unfolding receive_typing
  receive_typing_lem true q = rw get_typing-invalidate (compute-started _ (senders_of s c) refl)
  receive_typing_lem false q = elim (Option-cases (get s.by_conv c)) [
    | inl e ↦ rw e (rw (get_typing_quiet s now c q e))
    | inr (d, e) ↦ rw (e, get_typing-invalidate) (compute-stopped d)
  ]
