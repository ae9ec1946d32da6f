-- ===== src/Screens/Group.antt =====
-- Making a group (apps/mobile/src/screens/NewGroupScreen.tsx: peers, toggle, create). A Set is the
-- list of its members in the order of insertion.
use hwfa.Common.{
  ℕ, not, List, [], ◌∷◌, ◌++◌, String, ◌==◌, includes, is_some, filter, if◌then◌else◌,
}
use hwfa.Common.Text.{trim}
use hwfa.Conversations.{Conversation, Store}
use hwfa.Conversations.Outbound.{create_group}

unfoldable pub peers : List Conversation → List Conversation
peers conversations = filter (λ c. not (is_some c.group)) conversations

unfoldable pub delete_member : String → List String → List String
delete_member p [] = []
delete_member p (q ∷ qs) = let rest = delete_member p qs in if q == p then rest else q ∷ rest

unfoldable pub toggle : List String → String → List String
unfolding delete_member
toggle selected p = if includes p selected then delete_member p selected else selected ++ p ∷ []

unfoldable pub toggle_all : List String → List String → List String
unfolding toggle
toggle_all selected [] = selected
toggle_all selected (p ∷ ps) = toggle_all (toggle selected p) ps

abbrev pub group_name : String → String
group_name name = if trim name == "" then "New group" else trim name

-- Nothing happens with nobody selected; `gid` is the id that `createGroup` makes.
unfoldable pub create : Store → ℕ → String → String → List String → Store
create s now gid name [] = s
create s now gid name (p ∷ ps) = create_group s now gid (group_name name) (p ∷ ps)
