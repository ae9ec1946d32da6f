-- ===== src/Discovery/Laws/Requests.antt =====
-- One method of the discovery client at a time: how many requests it makes, its errors, its tokens.
use hwfa.Common.{
  ◌+◌, Bool, true, false, ◌&&◌, some, List, ◌∷◌, ◌≡◌, refl, ap, arith, String, nat_eq, length,
  if◌then◌else◌, Bool-cases, inl, inr,
}
use hwfa.Discovery.{
  http_post, Method, Body, refresh_body, Request, Reply, Answer, discovery_error, Result, threw,
  returned, Discovery, World, Network, truthy,
}
use hwfa.Discovery.Transport.{
  bearer_for, make_request, fetch, settle, request_once, take_refreshed, refresh, read_json,
  is_unauthorized, text_of, request,
}

-- The answer to the first request of a call.
abbrev pub first_answer : Network → World → Method → String → Body → Bool → Answer
first_answer net w m p b auth = net (make_request w.client m p b auth ∷ w.requests)

-- The request that `refresh` makes.
abbrev pub refresh_request : Discovery → Request
refresh_request c = make_request c http_post "/v1/auth/refresh" (refresh_body c.refresh_) false

abbrev pub is_returned : {A : Type 0} → Result A → Bool
is_returned (threw e) = false
is_returned (returned a) = true

-- A call makes one request, and two only if a 401 has it refresh the token: three then if the refresh
-- succeeds, else two.
pub request_count :
    (net : Network) (w : World) (m : Method) (p : String) (b : Body) (auth : Bool)
    → length (request net w m p b auth).1.requests
      ≡ length w.requests
        + (if is_unauthorized (first_answer net w m p b auth) && auth && truthy w.client.refresh_
            then (if is_returned (
                  settle "/v1/auth/refresh" (
                    net (refresh_request w.client ∷ make_request w.client m p b auth ∷ w.requests)))
                then 3
                else 2)
            else 1)
unfolding request refresh request_once fetch take_refreshed
request_count net w m p b auth = ground arith

-- A 401 whose refresh fails, for whatever reason, is thrown with its own text; two requests are made
-- and both tokens stay.
pub refresh_failed :
    (net : Network) (w : World) (m : Method) (p : String) (b : Body) (text : String)
    → is_unauthorized (first_answer net w m p b true) ≡ true
    → text_of (first_answer net w m p b true) ≡ text
    → truthy w.client.refresh_ ≡ true
    → is_returned (
        settle "/v1/auth/refresh"
          (net (refresh_request w.client ∷ make_request w.client m p b true ∷ w.requests)))
      ≡ false
    → request net w m p b true ≡ (
      threw (discovery_error 401 p text),
      record w {
        requests = refresh_request w.client ∷ make_request w.client m p b true ∷ w.requests;
      },
    )
unfolding request refresh request_once fetch
refresh_failed net w m p b text u x r f = ground arith

-- What the API documents of the server: it exchanges the refresh token `r` for tokens with an access
-- token, and does not answer 401 to the access token that it has just issued.
pub record IsHonest (net : Network) (r : String) : Type 0 where
  pub exchanges :
      (q : Request) (log : List Request)
      → q.body ≡ refresh_body (some r)
      → (reply : Reply) × (settle "/v1/auth/refresh" (net (q ∷ log)) ≡ returned reply)
        × (truthy reply.token ≡ true)
  pub accepts :
      (q q' : Request) (log : List Request) (reply : Reply)
      → q'.body ≡ refresh_body (some r)
      → settle "/v1/auth/refresh" (net (q' ∷ log)) ≡ returned reply
      → truthy reply.token ≡ true
      → q.bearer ≡ reply.token
      → is_unauthorized (net (q ∷ q' ∷ log)) ≡ false

abbrev pub is_unauthorized_error : Result Reply → Bool
is_unauthorized_error (threw (discovery_error status p text)) = nat_eq status 401
is_unauthorized_error _ = false

settle-unauthorized :
    (p : String) (a : Answer)
    → is_unauthorized a ≡ false
    → is_unauthorized_error (settle p a) ≡ false
unfolding settle read_json
settle-unauthorized p a h = ground arith

refresh_request_body :
    {r : String} (w : World)
    → w.client.refresh_ ≡ some r
    → (refresh_request w.client).body ≡ refresh_body (some r)
unfolding make_request
refresh_request_body w e = ap refresh_body e

refreshed_requests : (w : World) (reply : Reply) → (take_refreshed w reply).requests ≡ w.requests
unfolding take_refreshed
refreshed_requests w reply = refl

bearer_of_refreshed :
    (w : World) (reply : Reply) (m : Method) (p : String) (b : Body)
    → truthy reply.token ≡ true
    → (make_request (take_refreshed w reply).client m p b true).bearer ≡ reply.token
unfolding make_request bearer_for take_refreshed
bearer_of_refreshed w reply m p b h = ground arith

refresh_honoured :
    (net : Network) (w : World) (reply : Reply)
    → truthy w.client.refresh_ ≡ true
    → settle "/v1/auth/refresh" (net (refresh_request w.client ∷ w.requests)) ≡ returned reply
    → refresh net w ≡ (
      returned tt,
      take_refreshed (record w { requests = refresh_request w.client ∷ w.requests }) reply,
    )
unfolding refresh request_once fetch
refresh_honoured net w reply x ok = ground arith

request_once-unauthorized :
    (net : Network) (w : World) (m : Method) (p : String) (b : Body) (auth : Bool)
    → is_unauthorized (first_answer net w m p b auth) ≡ false
    → is_unauthorized_error (request_once net w m p b auth).0 ≡ false
unfolding request_once fetch
request_once-unauthorized net w m p b auth h = settle-unauthorized p _ h

-- The world in which a call is retried.
abbrev pub refreshed_world : World → Method → String → Body → Reply → World
refreshed_world w m p b reply =
    take_refreshed
      (record w {
        requests = refresh_request w.client ∷ make_request w.client m p b true ∷ w.requests;
      })
      reply

-- A 401 whose refresh succeeds does not show: the call returns what it returns when it is made with
-- the new tokens.
pub request_retried :
    (net : Network) (w : World) (m : Method) (p : String) (b : Body) (reply : Reply)
    → is_unauthorized (first_answer net w m p b true) ≡ true
    → truthy w.client.refresh_ ≡ true
    → settle "/v1/auth/refresh"
        (net (refresh_request w.client ∷ make_request w.client m p b true ∷ w.requests))
      ≡ returned reply
    → request net w m p b true ≡ request_once net (refreshed_world w m p b reply) m p b true
unfolding request fetch
request_retried net w m p b reply u x ok =
    let sent = record w { requests = make_request w.client m p b true ∷ w.requests } in
    ground (arith, refresh_honoured net sent reply x ok)

request_accepted :
    (net : Network) (w : World) (m : Method) (p : String) (b : Body)
    → is_unauthorized (first_answer net w m p b true) ≡ false
    → is_unauthorized_error (request net w m p b true).0 ≡ false
unfolding request fetch
request_accepted net w m p b u = rw u (settle-unauthorized p _ u)

-- With a server that honours the refresh token, a call that sends the access token never throws a
-- 401, however old that token is.
pub request_authorized :
    (net : Network) (r : String) (w : World) (m : Method) (p : String) (b : Body)
    → IsHonest net r
    → w.client.refresh_ ≡ some r
    → truthy (some r) ≡ true
    → is_unauthorized_error (request net w m p b true).0 ≡ false
request_authorized net r w m p b honest e x =
    let first = make_request w.client m p b true in
    let (reply, ok, issued) =
      honest.exchanges (refresh_request w.client) (first ∷ w.requests) (refresh_request_body w e) in
    let w' = refreshed_world w m p b reply in
    let accepted =
      honest.accepts (make_request w'.client m p b true) (refresh_request w.client)
        (first ∷ w.requests) reply (refresh_request_body w e) ok issued
        (bearer_of_refreshed _ reply m p b issued) in
    elim (Bool-cases (is_unauthorized (first_answer net w m p b true))) [
      | inl u ↦
          rw (request_retried net w m p b reply u (rw e x) ok)
            (request_once-unauthorized net w' m p b true (rw (refreshed_requests _ reply) accepted))
      | inr u ↦ request_accepted net w m p b u
    ]
