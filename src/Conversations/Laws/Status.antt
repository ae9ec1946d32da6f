-- ===== src/Conversations/Laws/Status.antt =====
-- Delivery status: it only rises, and only where the client's reference stands.
use hwfa.Common.{
  ℕ, suc, ◌≤◌, ◌<◌, true, Option, none, some, List, [], ◌∷◌, ◌≡◌, refl, arith, String, is_some,
  find, ap, ◌∙◌, find_holds, find-update_first, update_first, Bool-cases, Option-cases, inl, inr,
}
use mathlib.Core.Option.{some-injective}
use hwfa.Common.Dict.{Dict}
use hwfa.Models.{MessageStatus}
use hwfa.Conversations.{ChatMessage, Conversation, Store, status_rank}
use hwfa.Conversations.Edit.{raises, has_ref, raised, find_ref, status_convs, apply_status}

-- The rank of a status, with no status below all others.
abbrev pub rank : Option MessageStatus → ℕ
rank none = 0
rank (some st) = suc (status_rank st)

-- The new message is the old one but for its status, which has not fallen.
abbrev pub NotLowered : ChatMessage → ChatMessage → Type 0
NotLowered m m' = (record m' { status = m.status } ≡ m) × (rank m.status ≤ rank m'.status)

abbrev pub Pointwise {ℓ} : {A : Type ℓ} → (A → A → Type 0) → List A → List A → Type 0
Pointwise R [] [] = Unit
Pointwise R (x ∷ xs) (y ∷ ys) = R x y × Pointwise R xs ys
Pointwise R _ _ = ⊥

Pointwise-refl {ℓ} :
    {A : Type ℓ} (R : A → A → Type 0) → ((a : A) → R a a) → (xs : List A) → Pointwise R xs xs
Pointwise-refl R r [] = tt
Pointwise-refl R r (x ∷ xs) = (r x, Pointwise-refl R r xs)

NotLowered-refl : (m : ChatMessage) → NotLowered m m
NotLowered-refl m = (refl, omega arith)

raised-NotLowered : (st : MessageStatus) (m : ChatMessage) → NotLowered m (raised st m)
unfolding raised
raised-NotLowered st m = ground arith

update_first-NotLowered :
    (ref : String) (st : MessageStatus) (ms : List ChatMessage)
    → Pointwise NotLowered ms (update_first (has_ref ref) (raised st) ms)
update_first-NotLowered ref st [] = tt
update_first-NotLowered ref st (m ∷ ms) = elim (Bool-cases (has_ref ref m)) [
  | inl e ↦ rw e (raised-NotLowered st m, Pointwise-refl NotLowered NotLowered-refl ms)
  | inr e ↦ rw e (NotLowered-refl m, update_first-NotLowered ref st ms)
]

-- The same key, and a conversation that differs in its messages alone, none of them lowered.
abbrev pub SameButStatus : String × Conversation → String × Conversation → Type 0
SameButStatus (k, c) (k', c') =
    (k ≡ k')
    × (record c' { messages = c.messages } ≡ c)
    × Pointwise NotLowered c.messages c'.messages

SameButStatus-refl : (e : String × Conversation) → SameButStatus e e
SameButStatus-refl (k, c) = (refl, refl, Pointwise-refl NotLowered NotLowered-refl c.messages)

status_convs-SameButStatus :
    (ref : String) (st : MessageStatus) (d : Dict Conversation)
    → Pointwise SameButStatus d (status_convs ref st d)
unfolding status_convs
status_convs-SameButStatus ref st [] = tt
status_convs-SameButStatus ref st ((k, c) ∷ d) =
    elim (Bool-cases (is_some (find (has_ref ref) c.messages))) [
      | inl e ↦ rw e (
        (refl, refl, update_first-NotLowered ref st c.messages),
        Pointwise-refl SameButStatus SameButStatus-refl d,
      )
      | inr e ↦ rw e (SameButStatus-refl (k, c), status_convs-SameButStatus ref st d)
    ]

-- A status update changes nothing but message statuses, in no conversation lowers one, and keeps
-- the conversations and their order.
pub apply_status_monotone :
    (s : Store) (ref : String) (st : MessageStatus)
    → Pointwise SameButStatus s.convs (apply_status s ref st).convs
unfolding apply_status
apply_status_monotone s ref st = elim (Option-cases (find_ref ref s.convs)) [
  | inl e ↦ rw (e, apply_status) (Pointwise-refl SameButStatus SameButStatus-refl s.convs)
  | inr (m, e) ↦ elim (Bool-cases (raises m st)) [
    | inl r ↦ rw (e, r, apply_status) (status_convs-SameButStatus ref st s.convs)
    | inr r ↦ rw (e, r, apply_status) (Pointwise-refl SameButStatus SameButStatus-refl s.convs)
  ]
]

has_ref-raised :
    (ref : String) (st : MessageStatus) (m : ChatMessage)
    → has_ref ref m ≡ true
    → has_ref ref (raised st m) ≡ true
unfolding raised
has_ref-raised ref st m h = elim (Bool-cases (raises m st)) [ inl r ↦ rw r h | inr r ↦ rw r h ]

find_ref-status_convs :
    (ref : String) (st : MessageStatus) (d : Dict Conversation) (m : ChatMessage)
    → find_ref ref d ≡ some m
    → find_ref ref (status_convs ref st d) ≡ some (raised st m)
unfolding find_ref status_convs
find_ref-status_convs ref st [] m h = cc
find_ref-status_convs ref st ((k, c) ∷ d) m h =
    elim (Option-cases (find (has_ref ref) c.messages)) [
      | inl e ↦ rw e (rw e (find_ref-status_convs ref st d m (rw e at h)))
      | inr (x, e) ↦
          let same : x ≡ m = some-injective x m (rw e at h) in
          let kept = has_ref-raised ref st x (find_holds (has_ref ref) c.messages x e) in
          rw e (
            rw (find-update_first (has_ref ref) (raised st) c.messages x e kept)
              (ap (λ (y : ChatMessage). some (raised st y)) same))
    ]

raises_of_lt :
    (st : MessageStatus) (m : ChatMessage) → rank m.status < rank (some st) → raises m st ≡ true
unfolding raises
raises_of_lt st m h = ground arith

raised_of_raises :
    (st : MessageStatus) (m : ChatMessage)
    → raises m st ≡ true
    → raised st m ≡ record m { status = some st }
unfolding raised
raised_of_raises st m r = rw r

-- A status above the message's own is the status of the message with that reference afterwards.
pub find_ref-apply_status :
    (s : Store) (ref : String) (st : MessageStatus) (m : ChatMessage)
    → find_ref ref s.convs ≡ some m
    → rank m.status < rank (some st)
    → find_ref ref (apply_status s ref st).convs ≡ some (record m { status = some st })
unfolding apply_status
find_ref-apply_status s ref st m e h =
    let r = raises_of_lt st m h in
    rw (e, r, apply_status)
      (find_ref-status_convs ref st s.convs m e ∙ ap some (raised_of_raises st m r))
