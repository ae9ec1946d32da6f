-- ===== src/Screens/Laws/Group.antt =====
-- Who is in a new group.
use hwfa.Common.{
  ℕ, Bool, true, false, not, some, List, [], ◌∷◌, ◌++◌, ◌≡◌, refl, arith, String, ◌==◌, eq_iff,
  includes, if◌then◌else◌,
}
use hwfa.Common.Dict.{get, get-set_self}
use hwfa.Conversations.{Conversation, GroupInfo, Store, conv_of}
use hwfa.Conversations.Outbound.{create_group}
use hwfa.Screens.Group.{delete_member, toggle, toggle_all, group_name, create}

-- Pressed an odd number of times.
abbrev pub pressed_odd : String → List String → Bool
pressed_odd p [] = false
pressed_odd p (q ∷ qs) = if q == p then not (pressed_odd p qs) else pressed_odd p qs

includes-append :
    (p q : String) (qs : List String)
    → includes p (qs ++ q ∷ []) ≡ (if q == p then true else includes p qs)
includes-append p q [] = ground (arith, eq_iff p q, eq_iff q p)
includes-append p q (r ∷ qs) = ground (arith, includes-append p q qs, eq_iff p r, eq_iff q p)

includes-delete_member :
    (p q : String) (qs : List String)
    → includes p (delete_member q qs) ≡ (if q == p then false else includes p qs)
unfolding delete_member
includes-delete_member p q [] = ground arith
includes-delete_member p q (r ∷ qs) =
    ground (arith, includes-delete_member p q qs, eq_iff p r, eq_iff r p, eq_iff q p, eq_iff r q)

includes-toggle :
    (p q : String) (qs : List String)
    → includes p (toggle qs q) ≡ (if q == p then not (includes p qs) else includes p qs)
unfolding toggle
includes-toggle p q qs =
    ground (arith, includes-append p q qs, includes-delete_member p q qs, eq_iff q p)

xor : Bool → Bool → Bool
xor a b = if a then not b else b

includes-toggle_all :
    (p : String) (ps qs : List String)
    → includes p (toggle_all qs ps) ≡ xor (includes p qs) (pressed_odd p ps)
unfolding toggle_all xor
includes-toggle_all p [] qs = ground arith
includes-toggle_all p (q ∷ ps) qs =
    ground (arith, includes-toggle_all p ps (toggle qs q), includes-toggle p q qs)

-- With nobody selected nothing changed; else there is a group of those under the id.
abbrev pub IsCreated : Store → Store → String → String → List String → Type 0
IsCreated s s' gid name [] = s' ≡ s
IsCreated s s' gid name (p ∷ ps) =
    (conv : Conversation) × (get s'.convs gid ≡ some conv)
    × (conv.group ≡ some (record { name = group_name name; members = p ∷ ps }))

create-IsCreated :
    (s : Store) (now : ℕ) (gid name : String) (selected : List String)
    → IsCreated s (create s now gid name selected) gid name selected
unfolding create create_group
create-IsCreated s now gid name [] = refl
create-IsCreated s now gid name (p ∷ ps) =
    let group : GroupInfo = record { name = group_name name; members = p ∷ ps } in
    let conv = record (conv_of s gid) { group = some group; last_at = now } in
    (conv, get-set_self s.convs gid conv, refl)

-- Whoever is pressed an odd number of times, and nobody else, is selected; if anyone is, `create`
-- makes a group of exactly these under the new id, named as was typed or "New group", and else it
-- changes nothing.
pub create-toggle_all :
    (s : Store) (now : ℕ) (gid name : String) (ps : List String)
    → let selected = toggle_all [] ps in
      ((p : String) → includes p selected ≡ pressed_odd p ps)
      × IsCreated s (create s now gid name selected) gid name selected
unfolding xor
create-toggle_all s now gid name ps =
    (λ p. includes-toggle_all p ps [], create-IsCreated s now gid name (toggle_all [] ps))
