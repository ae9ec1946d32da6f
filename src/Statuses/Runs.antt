-- ===== src/Statuses/Runs.antt =====
-- The status list over any sequence of calls, and `prune` against its plain meaning.
use hwfa.Common.{
  ℕ, Bool, Option, List, [], ◌∷◌, ◌≡◌, refl, ap, arith, String, length, filter, length-filter-le,
  Bool-cases, inl, inr,
}
use hwfa.Common.Sort.{IsDescending, filter-IsDescending}
use hwfa.Wire.{StatusPayload}
use hwfa.Statuses.{StatusItem, is_live, add_own, receive_status, prune}
use hwfa.Statuses.Order.{at_key, IsDistinct, filter-IsDistinct, upsert-IsTidy}

filter-eq_self :
    (p : StatusItem → Bool) (xs : List StatusItem)
    → length (filter p xs) ≡ length xs
    → filter p xs ≡ xs
filter-eq_self p [] h = refl
filter-eq_self p (x ∷ xs) h = elim (Bool-cases (p x)) [
  | inl e ↦ rw e (ap (λ r. x ∷ r) (filter-eq_self p xs (ground arith)))
  | inr e ↦ absurd (ground (arith, length-filter-le p xs))
]

-- `prune` drops exactly the expired entries: where the lengths agree there was nothing to drop.
pub prune-eq-filter :
    (items : List StatusItem) (now : ℕ) → prune items now ≡ filter (is_live now) items
unfolding prune
prune-eq-filter items now = ground (arith, filter-eq_self (is_live now) items)

pub data Call : Type 0 where
  post : StatusPayload → Call
  receive : String → StatusPayload → Option String → Call
  prune_due : Call

unfoldable pub step : List StatusItem → ℕ → Call → List StatusItem
step items now (post payload) = add_own items now payload
step items now (receive from payload phone) = receive_status items now from payload phone
step items now prune_due = prune items now

unfoldable pub run : List StatusItem → List (ℕ × Call) → List StatusItem
run items [] = items
run items ((now, c) ∷ cs) = run (step items now c) cs

abbrev pub IsOrdered : List StatusItem → Type 0
IsOrdered items = IsDescending at_key items × IsDistinct items

step-IsOrdered :
    (items : List StatusItem) (now : ℕ) (c : Call) → IsOrdered items → IsOrdered (step items now c)
unfolding step add_own receive_status
step-IsOrdered items now (post payload) (o, d) =
    let t = upsert-IsTidy items now _ d in (t.ordered, t.distinct)
step-IsOrdered items now (receive from payload phone) (o, d) =
    let t = upsert-IsTidy items now _ d in (t.ordered, t.distinct)
step-IsOrdered items now prune_due (o, d) =
    rw prune-eq-filter
      (filter-IsDescending at_key (is_live now) items o, filter-IsDistinct (is_live now) items d)

run-IsOrdered_from :
    (items : List StatusItem) (cs : List (ℕ × Call)) → IsOrdered items → IsOrdered (run items cs)
unfolding run
run-IsOrdered_from items [] h = h
run-IsOrdered_from items ((now, c) ∷ cs) h =
    run-IsOrdered_from (step items now c) cs (step-IsOrdered items now c h)

-- After any sequence of posts, receptions and prunes, at any times, the statuses are newest first
-- and no id occurs twice.
run-IsOrdered : (cs : List (ℕ × Call)) → IsOrdered (run [] cs)
run-IsOrdered cs = run-IsOrdered_from [] cs (tt, tt)
