-- ===== src/Discovery/Laws/Tests.antt =====
-- Calls against small servers.
use hwfa.Common.{
  ◌≤◌, Bool, true, false, ◌||◌, Option, none, some, List, [], ◌∷◌, ◌≡◌, refl, sym, ap, ◌∙◌, String,
  ◌==◌, Bool-cases, inl, inr, length, All, same_text, if◌then◌else◌,
}
use hwfa.Discovery.{
  http_get, no_body, Body, refresh_body, Request, Reply, Answer, unreachable, replied,
  discovery_error, Result, threw, returned, Discovery, World, Network,
}
use hwfa.Discovery.Transport.{make_request, settle, read_json, request}
use hwfa.Discovery.Loop.{request_loop, request_terminates}
use hwfa.Discovery.Shared.{
  settled, began, answered, refreshed, init, step, run, Event, begin, receive_at, retries_at,
  retries, receive, start_refresh, finish_refresh, resume_all, resume, refreshed_client,
}
use hwfa.Discovery.Laws.Requests.{
  request_count, refresh_failed, request_authorized, IsHonest, refresh_request,
  is_unauthorized_error,
}
use hwfa.Discovery.Laws.Sharing.{IsSound, run-IsSound, single_flight}
use hwfa.Discovery.Laws.Alone.{script, stages, alone_refines_request}

abbrev ada : Discovery
ada = record { base_url = "https://d"; token = some "old"; refresh_ = some "r" }

abbrev ada_world : World
ada_world = record { client = ada; requests = [] }

abbrev fresh : Reply
fresh = record {
  token = some "new";
  refresh_token = some "r";
  verified = true;
  user_id = none;
  account_id = none;
  otp_sent = false;
  dev_otp = none;
  bundle = none;
  my_devices = none;
  devices = none;
  pool_size = some 7;
  salt_b64 = none;
  matches = none;
}

abbrev accepted : Answer
accepted = replied (record { status = 200; text = ""; json = some fresh })

abbrev refused : Answer
refused = replied (record { status = 401; text = "expired"; json = none })

abbrev refreshes_with : String → Body → Bool
refreshes_with r (refresh_body (some s)) = s == r
refreshes_with r _ = false

-- It knows the refresh token "r" and the access token "new".
abbrev server : Network
server [] = unreachable
server (q ∷ log) =
    if same_text q.bearer (some "new") || refreshes_with "r" q.body then accepted else refused

-- It answers every refresh with 401 too.
abbrev closed_server : Network
closed_server log = refused

abbrev token_of : Result Reply → Option String
token_of (threw e) = none
token_of (returned reply) = reply.token

server_refresh :
    (q : Request) (log : List Request)
    → q.body ≡ refresh_body (some "r")
    → settle "/v1/auth/refresh" (server (q ∷ log)) ≡ returned fresh
unfolding settle read_json
server_refresh q log e = elim (Bool-cases (same_text q.bearer (some "new"))) [
  | inl f ↦ rw f refl
  | inr f ↦ rw (f, e) refl
]

server-IsHonest : IsHonest server "r"
unfolding settle read_json
server-IsHonest = record {
  exchanges = λ q log e. (fresh, server_refresh q log e, refl);
  accepts = λ q q' log reply e ok issued b.
      rw (b ∙ sym (ap token_of (sym (server_refresh q' log e) ∙ ok))) refl;
}

request_terminates_example :
    request_loop 3 server ada_world http_get "/v1/keys/pool" no_body true false
    ≡ some (request server ada_world http_get "/v1/keys/pool" no_body true)
request_terminates_example =
    request_terminates 0 server ada_world http_get "/v1/keys/pool" no_body true

request_authorized_example :
    is_unauthorized_error (request server ada_world http_get "/v1/keys/pool" no_body true).0 ≡ false
request_authorized_example =
    request_authorized server "r" ada_world http_get "/v1/keys/pool" no_body server-IsHonest refl
      refl

request_count_example :
    length (request closed_server ada_world http_get "/v1/keys/pool" no_body true).1.requests ≡ 2
unfolding settle
request_count_example = request_count closed_server ada_world http_get "/v1/keys/pool" no_body true

refresh_failed_example : request closed_server ada_world http_get "/v1/keys/pool" no_body true ≡ (
  threw (discovery_error 401 "/v1/keys/pool" "expired"),
  record ada_world {
    requests = refresh_request ada ∷ make_request ada http_get "/v1/keys/pool" no_body true ∷ [];
  },
)
unfolding settle
refresh_failed_example =
    refresh_failed closed_server ada_world http_get "/v1/keys/pool" no_body "expired" refl refl refl
      refl

abbrev deleting_server : Network
deleting_server log = accepted

-- Two calls get a 401, one refresh serves both.
abbrev overlap : List Event
overlap =
    began "/v1/keys/pool" true
    ∷ began "/v1/devices" true
    ∷ answered 1 refused
    ∷ answered 0 refused
    ∷ refreshed accepted
    ∷ answered 0 accepted
    ∷ answered 1 accepted
    ∷ []

overlap_test :
    (stages (run (init ada) overlap).tasks
      ≡ settled (returned fresh) ∷ settled (returned fresh) ∷ [])
    × ((run (init ada) overlap).refreshes ≡ 1)
unfolding run step begin receive_at retries_at retries receive start_refresh finish_refresh
    resume_all resume refreshed_client settle read_json
overlap_test = (refl, refl)

run-IsSound_example :
    All (IsSound (run (init ada) overlap).refreshing) (run (init ada) overlap).tasks
run-IsSound_example = run-IsSound ada overlap

single_flight_example : (run (init ada) overlap).refreshes ≤ 2
single_flight_example = single_flight ada overlap

abbrev waiting_calls : List Event
waiting_calls = began "/v1/keys/pool" true ∷ answered 0 refused ∷ []

alone_refines_request_example :
    let s = run (init ada) (
      began "/v1/keys/pool" true
      ∷ answered 0 refused
      ∷ refreshed accepted
      ∷ answered 0 accepted
      ∷ []) in
    let (result, w) =
      request (script refused accepted accepted) ada_world http_get "/v1/keys/pool" no_body true in
    (stages s.tasks ≡ settled result ∷ []) × (s.client ≡ w.client)
alone_refines_request_example =
    alone_refines_request ada http_get "/v1/keys/pool" no_body true refused accepted accepted
