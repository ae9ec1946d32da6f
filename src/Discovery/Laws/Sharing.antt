-- ===== src/Discovery/Laws/Sharing.antt =====
-- Requests that overlap: no more than one refresh at a time, nobody is left waiting.
use hwfa.Common.{
  ℕ, zero, suc, ◌+◌, ◌≤◌, Bool, true, false, not, ◌&&◌, ◌||◌, if◌then◌else◌, List, [], ◌∷◌, ◌≡◌,
  refl, arith, All, All-append, Bool-cases, inl, inr,
}
use hwfa.Discovery.{Reply, Answer, Result, Discovery, truthy}
use hwfa.Discovery.Transport.{refresh}
use hwfa.Discovery.Shared.{
  Stage, waiting, Task, Shared, Event, began, answered, access_wanted, refreshed, tokens_set,
  account_deleted, init, start_refresh, begin, retries, receive, is_in_flight, receive_at,
  retries_at, resume, resume_all, finish_refresh, step, run,
}

abbrev pub is_waiting : Stage → Bool
is_waiting (waiting text) = true
is_waiting _ = false

-- A task was sent once, or twice if it was retried, and waits only before the retry and with a
-- refresh under way.
abbrev pub IsSound : Bool → Task → Type 0
IsSound refreshing t =
    (t.fetches ≡ (if t.retried then 2 else 1))
    × (is_waiting t.stage ≡ true → (refreshing ≡ true) × (t.retried ≡ false))

IsSound-or : (b x : Bool) (t : Task) → IsSound b t → IsSound (b || x) t
IsSound-or true x t h = h
IsSound-or false x t (n, p) = (n, ground arith)

all-IsSound_or : (b x : Bool) (ts : List Task) → All (IsSound b) ts → All (IsSound (b || x)) ts
all-IsSound_or b x [] h = tt
all-IsSound_or b x (t ∷ ts) (q, h) = (IsSound-or b x t q, all-IsSound_or b x ts h)

IsSound-true : (b : Bool) (ts : List Task) → All (IsSound b) ts → All (IsSound true) ts
IsSound-true true ts h = h
IsSound-true false ts h = all-IsSound_or false true ts h

IsSound-kept :
    (b x : Bool) (ts : List Task) → x ≡ false → All (IsSound (b || x)) ts → All (IsSound b) ts
IsSound-kept true x ts e h = h
IsSound-kept false x ts e h = rw (← e) h

receive-IsSound :
    (c : Discovery) (t : Task) (a : Answer) (b : Bool)
    → IsSound b t
    → IsSound (b || (is_in_flight t.stage && retries c t a)) (receive c t a)
unfolding receive retries
receive-IsSound c t a b (n, p) = (ground arith, ground arith)

receive_at-IsSound :
    (c : Discovery) (ts : List Task) (k : ℕ) (a : Answer) (b : Bool)
    → All (IsSound b) ts
    → All (IsSound (b || retries_at c ts k a)) (receive_at c ts k a)
unfolding receive_at retries_at
receive_at-IsSound c [] k a b h = tt
receive_at-IsSound c (t ∷ ts) zero a b (q, h) = (receive-IsSound c t a b q, all-IsSound_or b _ ts h)
receive_at-IsSound c (t ∷ ts) (suc k) a b (q, h) =
    (IsSound-or b _ t q, receive_at-IsSound c ts k a b h)

-- After the answer to a refresh nobody waits, so all is sound without one.
resume_all-IsSound :
    (r : Result Reply) (c : Discovery) (ts : List Task)
    → All (IsSound true) ts
    → All (IsSound false) (resume_all r c ts)
unfolding resume_all resume
resume_all-IsSound r c [] h = tt
resume_all-IsSound r c (t ∷ ts) ((n, p), h) =
    ((ground arith, ground arith), resume_all-IsSound r c ts h)

start_refresh-IsSound :
    (s : Shared)
    → All (IsSound true) s.tasks
    → All (IsSound (start_refresh s).refreshing) (start_refresh s).tasks
unfolding start_refresh
start_refresh-IsSound s h = elim (Bool-cases s.refreshing) [ inl e ↦ rw e h | inr e ↦ rw e h ]

step-IsSound :
    (s : Shared) (e : Event)
    → All (IsSound s.refreshing) s.tasks
    → All (IsSound (step s e).refreshing) (step s e).tasks
unfolding step begin finish_refresh
step-IsSound s (began p auth) h =
    All-append (IsSound s.refreshing) s.tasks _ h ((refl, ground arith), tt)
step-IsSound s (answered k a) h =
    let h' = receive_at-IsSound s.client s.tasks k a s.refreshing h in
    elim (Bool-cases (retries_at s.client s.tasks k a)) [
      | inl e ↦ rw e (start_refresh-IsSound _ (IsSound-true _ _ h'))
      | inr e ↦ rw e (IsSound-kept s.refreshing _ _ e h')
    ]
step-IsSound s (access_wanted soon) h =
    elim (Bool-cases (truthy s.client.refresh_ && (not (truthy s.client.token) || soon))) [
      | inl e ↦ rw e (start_refresh-IsSound s (IsSound-true s.refreshing s.tasks h))
      | inr e ↦ rw e h
    ]
step-IsSound s (refreshed a) h = elim (Bool-cases s.refreshing) [
  | inl e ↦ rw e (resume_all-IsSound _ _ s.tasks (rw (← e) h))
  | inr e ↦ rw e (rw (← e) h)
]
step-IsSound s (tokens_set access refresh) h = h
step-IsSound s account_deleted h = h

run-IsSound_from :
    (s : Shared) (es : List Event)
    → All (IsSound s.refreshing) s.tasks
    → All (IsSound (run s es).refreshing) (run s es).tasks
unfolding run
run-IsSound_from s [] h = h
run-IsSound_from s (e ∷ es) h = run-IsSound_from (step s e) es (step-IsSound s e h)

-- From a client with no request under way, after any calls and answers in any order: every task was
-- sent once, or twice if it was retried, and a task that waits has not been retried and has a
-- refresh under way to wait for.
pub run-IsSound :
    (c : Discovery) (es : List Event)
    → All (IsSound (run (init c) es).refreshing) (run (init c) es).tasks
run-IsSound c es = run-IsSound_from (init c) es tt

-- The answers to refreshes among the events.
abbrev pub answers : List Event → ℕ
answers [] = 0
answers (refreshed a ∷ es) = suc (answers es)
answers (_ ∷ es) = answers es

abbrev under_way : Bool → ℕ
under_way true = 1
under_way false = 0

under_way_le : (b : Bool) → under_way b ≤ 1
under_way_le true = omega arith
under_way_le false = omega arith

answers_cons : (e : Event) (es : List Event) → answers (e ∷ es) ≡ answers (e ∷ []) + answers es
answers_cons (refreshed a) es = omega arith
answers_cons _ es = omega arith

step-refreshes :
    (s : Shared) (e : Event)
    → (step s e).refreshes + under_way s.refreshing
      ≤ s.refreshes + under_way (step s e).refreshing + answers (e ∷ [])
unfolding step begin finish_refresh start_refresh
step-refreshes s (answered k a) = ground arith
step-refreshes s (refreshed a) = ground arith
step-refreshes s (access_wanted soon) = ground arith
step-refreshes s (began p auth) = omega arith
step-refreshes s (tokens_set access refresh) = omega arith
step-refreshes s account_deleted = omega arith

run-refreshes :
    (s : Shared) (es : List Event)
    → (run s es).refreshes + under_way s.refreshing
      ≤ s.refreshes + under_way (run s es).refreshing + answers es
unfolding run
run-refreshes s [] = omega arith
run-refreshes s (e ∷ es) =
    omega (arith, step-refreshes s e, run-refreshes (step s e) es, answers_cons e es)

-- However calls and answers interleave, the client sends a refresh only after the last one was
-- answered: it has sent at most one more than were answered.
pub single_flight : (c : Discovery) (es : List Event) → (run (init c) es).refreshes ≤ 1 + answers es
single_flight c es =
    omega (arith, run-refreshes (init c) es, under_way_le (run (init c) es).refreshing)

resume_all-released :
    (r : Result Reply) (c : Discovery) (ts : List Task)
    → All (λ t. is_waiting t.stage ≡ false) (resume_all r c ts)
unfolding resume_all resume
resume_all-released r c [] = tt
resume_all-released r c (t ∷ ts) = (ground arith, resume_all-released r c ts)

-- The answer to a refresh, a failure too, leaves no task waiting and the next refresh free to start.
pub refreshed-released :
    (s : Shared) (a : Answer)
    → s.refreshing ≡ true
    → let s' = step s (refreshed a) in
      (s'.refreshing ≡ false) × All (λ t. is_waiting t.stage ≡ false) s'.tasks
unfolding step finish_refresh
refreshed-released s a e = rw e (refl, resume_all-released _ _ s.tasks)
