-- ===== src/Typing.antt =====
-- Who is typing (apps/mobile/src/store/typing.ts, class TypingStore). The clock is an argument;
-- listeners are not modelled. A snapshot is compared and replaced by value.
pub mod Snapshots
mod Tests
use hwfa.Common.{
  ℕ, ◌+◌, Bool, true, false, ◌&&◌, ◌||◌, Option, none, some, List, [], ◌∷◌, String, ◌==◌, leb, ltb,
  is_some, filter, nat_eq, length, map, if◌then◌else◌, not,
}
use hwfa.Common.Dict.{Dict, get, set, delete}

abbrev pub typing_ttl_ms : ℕ
typing_ttl_ms = 6000

pub record TypingStore : Type 0 where
  -- conversation id → (sender id → expiry timestamp).
  pub by_conv : Dict (Dict ℕ)
  pub snapshots : Dict (List String)
  -- Whether the sweep timer runs.
  pub sweep_timer : Bool

abbrev pub init : TypingStore
init = record { by_conv = []; snapshots = []; sweep_timer = false }

-- The senders whose entry expires later than `now`, in order.
unfoldable pub live : ℕ → Dict ℕ → List String
live now senders = map (λ e. e.0) (filter (λ e. ltb now e.1) senders)

unfoldable pub compute : TypingStore → ℕ → String → List String
unfolding live
compute s now conv = elim (get s.by_conv conv) [ none ↦ [] | some senders ↦ live now senders ]

unfoldable pub same_list : List String → List String → Bool
same_list [] [] = true
same_list (x ∷ xs) (y ∷ ys) = x == y && same_list xs ys
same_list _ _ = false

unfoldable pub invalidate : TypingStore → ℕ → String → TypingStore
unfolding same_list compute
invalidate s now conv =
    let next = compute s now conv in
    let changed = record s { snapshots = set s.snapshots conv next } in
    elim (get s.snapshots conv) [
      | none ↦ changed
      | some prev ↦ if same_list prev next then s else changed
    ]

abbrev pub senders_of : TypingStore → String → Dict ℕ
senders_of s conv = elim (get s.by_conv conv) [ none ↦ [] | some senders ↦ senders ]

unfoldable pub is_empty {ℓ} : {A : Type ℓ} → List A → Bool
is_empty [] = true
is_empty (x ∷ xs) = false

-- A map without senders is not kept.
unfoldable pub keep_senders : TypingStore → String → Dict ℕ → TypingStore
unfolding is_empty
keep_senders s conv senders =
    if is_empty senders
    then record s { by_conv = delete s.by_conv conv }
    else record s { by_conv = set s.by_conv conv senders }

unfoldable pub receive_typing : TypingStore → ℕ → String → String → Bool → TypingStore
unfolding keep_senders
receive_typing s now conv sender typing =
    if typing
    then invalidate
        (record s {
          by_conv = set s.by_conv conv (set (senders_of s conv) sender (now + typing_ttl_ms));
          sweep_timer = true;
        })
        now conv
    else (elim (get s.by_conv conv) [
      | none ↦ s
      | some senders ↦ invalidate (keep_senders s conv (delete senders sender)) now conv
    ])

unfoldable pub clear : TypingStore → TypingStore
unfolding is_empty
clear s = if is_empty s.by_conv then s else record s { by_conv = []; snapshots = [] }

-- The cached list, and the store with it cached.
unfoldable pub get_typing : TypingStore → ℕ → String → List String × TypingStore
unfolding compute
get_typing s now conv = elim (get s.snapshots conv) [
  | some cached ↦ (cached, s)
  | none ↦
      let fresh = compute s now conv in (fresh, record s { snapshots = set s.snapshots conv fresh })
]

-- One conversation of a sweep. `changed` is the sweep's one flag: it stays set for the
-- conversations after the first that lost a sender.
sweep_conv : ℕ → TypingStore × Bool → String × Dict ℕ → TypingStore × Bool
unfolding keep_senders
sweep_conv now (s, changed) (conv, senders) =
    let kept = filter (λ e. not (leb e.1 now)) senders in
    let changed' = changed || not (nat_eq (length kept) (length senders)) in
    let s' = keep_senders s conv kept in (if changed' then invalidate s' now conv else s', changed')

sweep_from : ℕ → TypingStore × Bool → Dict (Dict ℕ) → TypingStore × Bool
unfolding sweep_conv
sweep_from now state [] = state
sweep_from now state (e ∷ es) = sweep_from now (sweep_conv now state e) es

-- The timer's function: drop what has expired, and stop the timer when nobody is left.
unfoldable pub sweep : TypingStore → ℕ → TypingStore
unfolding sweep_from is_empty
sweep s now =
    let (s', changed) = sweep_from now (s, false) s.by_conv in
    if is_empty s'.by_conv then record s' { sweep_timer = false } else s'
