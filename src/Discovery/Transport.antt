-- ===== src/Discovery/Transport.antt =====
-- Requests of the discovery client and the refresh of its access token (discovery.ts: request,
-- refresh, ensureAccess, expiringSoon), one method at a time.
use Prim.Native.Char.{code}
use hwfa.Common.{
  ℕ, ◌+◌, ◌*◌, Bool, true, false, not, ◌&&◌, ◌||◌, Option, none, some, ◌∷◌, String, ltb, nat_eq,
  if◌then◌else◌, or_default, ◌==◌,
}
use hwfa.Base64Url.{to_standard}
use hwfa.Common.Text.{◌+++◌}
use hwfa.Discovery.{
  Method, http_post, Body, no_body, refresh_body, Request, Reply, Answer, unreachable, replied,
  fetch_failed, bad_json, no_refresh_token, discovery_error, Result, threw, returned, Discovery,
  World, Network, truthy, is_ok,
}

abbrev pub has_body : Body → Bool
has_body no_body = false
has_body _ = true

-- The header is set for a token that is there and not empty.
unfoldable pub bearer_for : Bool → Discovery → Option String
bearer_for auth c = if auth && truthy c.token then c.token else none

unfoldable pub make_request : Discovery → Method → String → Body → Bool → Request
unfolding bearer_for
make_request c method pathname body auth = record {
  method = method;
  url = c.base_url +++ pathname;
  json_header = has_body body;
  bearer = bearer_for auth c;
  body = body;
}

-- One call of `fetch`.
unfoldable pub fetch : Network → World → Request → Answer × World
fetch net w request =
    let requests = request ∷ w.requests in (net requests, record w { requests = requests })

unfoldable pub read_json : Option Reply → Result Reply
read_json none = threw bad_json
read_json (some reply) = returned reply

-- What `request` makes of an answer that it does not retry.
unfoldable pub settle : String → Answer → Result Reply
settle pathname unreachable = threw fetch_failed
settle pathname (replied r) =
    if is_ok r.status then read_json r.json else threw (discovery_error r.status pathname r.text)

-- `request` of which no answer is retried: `auth` is false, or it is the retry itself.
unfoldable pub request_once : Network → World → Method → String → Body → Bool → Result Reply × World
unfolding make_request
request_once net w method pathname body auth =
    let (answer, w') = fetch net w (make_request w.client method pathname body auth) in
    (settle pathname answer, w')

-- The tokens of the reply; an absent refresh token, or an empty one, keeps the old one.
unfoldable pub take_refreshed : World → Reply → World
take_refreshed w reply = record w {
  client = record w.client {
    token = reply.token;
    refresh_ = if truthy reply.refresh_token then reply.refresh_token else w.client.refresh_;
  };
}

unfoldable pub refresh : Network → World → Result Unit × World
refresh net w =
    if truthy w.client.refresh_
    then (let (result, w') =
          request_once net w http_post "/v1/auth/refresh" (refresh_body w.client.refresh_) false in
        elim result [
          | threw e ↦ (threw e, w')
          | returned reply ↦ (returned tt, take_refreshed w' reply)
        ])
    else (threw no_refresh_token, w)

abbrev pub is_unauthorized : Answer → Bool
is_unauthorized unreachable = false
is_unauthorized (replied r) = nat_eq r.status 401

abbrev pub text_of : Answer → String
text_of unreachable = ""
text_of (replied r) = r.text

-- `request`: an answer 401 is retried once with the refreshed token.
unfoldable pub request : Network → World → Method → String → Body → Bool → Result Reply × World
request net w method pathname body auth =
    let (answer, w') = fetch net w (make_request w.client method pathname body auth) in
    if is_unauthorized answer && auth && truthy w'.client.refresh_
    then (let (result, w'') = refresh net w' in
        elim result [
          | threw e ↦ (threw (discovery_error 401 pathname (text_of answer)), w'')
          | returned _ ↦ request_once net w'' method pathname body auth
        ])
    else (settle pathname answer, w')

abbrev map_some : (String → String) → Option String → Option String
map_some f none = none
map_some f (some s) = some (f s)

-- `slice(0, indexOf("."))`; none without a dot.
unfoldable pub before_dot : String → Option String
before_dot String.[] = none
before_dot (String.◌∷◌ c s) =
    let rest = before_dot s in
    if nat_eq (code c) b'.' then some "" else map_some (String.◌∷◌ c) rest

module _ (read_exp : String → Option ℕ) (now : ℕ) where
  -- The claim ends within a minute, or there is none to read.
  unfoldable pub ends_soon : Option ℕ → Bool
  ends_soon none = true
  ends_soon (some exp) = ltb (exp * 1000) (now + 60000)

  -- `read_exp` is `atob`, `JSON.parse` and the test of the type of `exp`.
  unfoldable pub expiring_soon : String → Bool
  unfolding ends_soon
  expiring_soon token = elim (before_dot token) [
    | none ↦ true
    | some payload ↦ payload == "" || ends_soon (read_exp (to_standard payload))
  ]

  unfoldable pub ensure_access : Network → World → Result Unit × World
  ensure_access net w =
      let refreshed = refresh net w in
      if not (truthy w.client.refresh_)
      then (returned tt, w)
      else if truthy w.client.token && not (expiring_soon (or_default w.client.token ""))
      then (returned tt, w)
      else refreshed
