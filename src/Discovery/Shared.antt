-- ===== src/Discovery/Shared.antt =====
-- Requests of the discovery client that overlap (discovery.ts: request, refresh with its promise
-- `refreshing`, ensureAccess): the answers come in any order, one refresh serves all that wait.
use hwfa.Common.{
  ℕ, zero, suc, Bool, true, false, not, ◌&&◌, ◌||◌, Option, none, List, [], ◌∷◌, ◌++◌, String,
  if◌then◌else◌,
}
use hwfa.Discovery.{Reply, Answer, discovery_error, Result, threw, returned, Discovery, truthy}
use hwfa.Discovery.Transport.{bearer_for, settle, is_unauthorized, text_of}

-- A call of `request`: its answer is due, it waits for `refreshing` with the text of its 401, or it
-- has settled.
pub data Stage : Type 0 where
  in_flight : Option String → Stage
  waiting : String → Stage
  settled : Result Reply → Stage

pub record Task : Type 0 where
  pub pathname : String
  pub auth : Bool
  pub retried : Bool
  -- The calls of `fetch` that it has made.
  pub fetches : ℕ
  pub stage : Stage

-- `refreshing` is whether the promise is there; `refreshes` counts the requests to refresh.
pub record Shared : Type 0 where
  pub client : Discovery
  pub refreshing : Bool
  pub refreshes : ℕ
  pub tasks : List Task

-- `soon` is whether the token that is held expires soon.
pub data Event : Type 0 where
  began : String → Bool → Event
  answered : ℕ → Answer → Event
  access_wanted : Bool → Event
  refreshed : Answer → Event
  tokens_set : Option String → Option String → Event
  account_deleted : Event

abbrev pub init : Discovery → Shared
init c = record { client = c; refreshing = false; refreshes = 0; tasks = [] }

-- `refresh` past its first line: a refresh that is under way is shared.
unfoldable pub start_refresh : Shared → Shared
start_refresh s =
    if s.refreshing then s else record s { refreshing = true; refreshes = suc s.refreshes }

unfoldable pub begin : Shared → String → Bool → Shared
begin s pathname auth = record s {
  tasks =
      s.tasks
      ++ (record {
        pathname = pathname;
        auth = auth;
        retried = false;
        fetches = 1;
        stage = in_flight (bearer_for auth s.client);
      }
          ∷ []);
}

-- The answer of a call is retried after a refresh.
unfoldable pub retries : Discovery → Task → Answer → Bool
retries c t answer = is_unauthorized answer && t.auth && not t.retried && truthy c.refresh_

unfoldable pub receive : Discovery → Task → Answer → Task
receive c t answer = elim t.stage [
  | in_flight _ ↦
      if retries c t answer
      then record t { stage = waiting (text_of answer) }
      else record t { stage = settled (settle t.pathname answer) }
  | _ ↦ t
]

abbrev pub is_in_flight : Stage → Bool
is_in_flight (in_flight bearer) = true
is_in_flight _ = false

unfoldable pub receive_at : Discovery → List Task → ℕ → Answer → List Task
receive_at c [] k answer = []
receive_at c (t ∷ ts) zero answer = receive c t answer ∷ ts
receive_at c (t ∷ ts) (suc k) answer = t ∷ receive_at c ts k answer

unfoldable pub retries_at : Discovery → List Task → ℕ → Answer → Bool
retries_at c [] k answer = false
retries_at c (t ∷ ts) zero answer = is_in_flight t.stage && retries c t answer
retries_at c (t ∷ ts) (suc k) answer = retries_at c ts k answer

-- A task that waited: sent once more, or its 401 thrown.
unfoldable pub resume : Result Reply → Discovery → Task → Task
resume result c t = elim t.stage [
  | waiting text ↦ elim result [
    | threw e ↦ record t { stage = settled (threw (discovery_error 401 t.pathname text)) }
    | returned _ ↦ record t {
      retried = true;
      fetches = suc t.fetches;
      stage = in_flight (bearer_for t.auth c);
    }
  ]
  | _ ↦ t
]

unfoldable pub resume_all : Result Reply → Discovery → List Task → List Task
resume_all result c [] = []
resume_all result c (t ∷ ts) = resume result c t ∷ resume_all result c ts

-- The tokens after the answer to a refresh; a failure keeps them.
unfoldable pub refreshed_client : Discovery → Result Reply → Discovery
refreshed_client c (threw e) = c
refreshed_client c (returned reply) = record c {
  token = reply.token;
  refresh_ = if truthy reply.refresh_token then reply.refresh_token else c.refresh_;
}

-- The refresh is answered: the promise goes, and all that waited for it go on.
unfoldable pub finish_refresh : Shared → Result Reply → Shared
finish_refresh s result =
    let c = refreshed_client s.client result in
    record s { client = c; refreshing = false; tasks = resume_all result c s.tasks }

unfoldable pub step : Shared → Event → Shared
step s (began pathname auth) = begin s pathname auth
step s (answered k answer) =
    let s' = record s { tasks = receive_at s.client s.tasks k answer } in
    if retries_at s.client s.tasks k answer then start_refresh s' else s'
step s (access_wanted soon) =
    if truthy s.client.refresh_ && (not (truthy s.client.token) || soon) then start_refresh s else s
step s (refreshed answer) =
    if s.refreshing then finish_refresh s (settle "/v1/auth/refresh" answer) else s
step s (tokens_set access refresh) = record s {
  client = record s.client { token = access; refresh_ = refresh };
}
step s account_deleted = record s { client = record s.client { token = none } }

unfoldable pub run : Shared → List Event → Shared
run s [] = s
run s (e ∷ es) = run (step s e) es
