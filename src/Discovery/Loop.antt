-- ===== src/Discovery/Loop.antt =====
-- `request` and `refresh` as they are written, each calling the other (discovery.ts: post, request,
-- refresh), on fuel, and that three calls are enough.
use hwfa.Common.{
  ℕ, zero, suc, Bool, true, false, not, ◌&&◌, Option, none, some, ◌≡◌, refl, arith, String,
  if◌then◌else◌,
}
use hwfa.Discovery.{
  Method, http_post, Body, refresh_body, Reply, no_refresh_token, discovery_error, Result, threw,
  returned, World, Network, truthy,
}
use hwfa.Discovery.Transport.{
  make_request, fetch, settle, request_once, take_refreshed, refresh, is_unauthorized, text_of,
  request,
}

-- `request` with fewer calls left.
abbrev Post : Type 0
Post = World → Method → String → Body → Bool → Bool → Option (Result Reply × World)

unfoldable refresh_by : Post → World → Option (Result Unit × World)
refresh_by post w =
    if truthy w.client.refresh_
    then elim (post w http_post "/v1/auth/refresh" (refresh_body w.client.refresh_) false false) [
      | none ↦ none
      | some (result, w') ↦ elim result [
        | threw e ↦ some (threw e, w')
        | returned reply ↦ some (returned tt, take_refreshed w' reply)
      ]
    ]
    else some (threw no_refresh_token, w)

-- None when the fuel runs out.
unfoldable pub request_loop :
    ℕ → Network → World → Method → String → Body → Bool → Bool → Option (Result Reply × World)
unfolding refresh_by
request_loop zero net w method pathname body auth retried = none
request_loop (suc fuel) net w method pathname body auth retried =
    let (answer, w') = fetch net w (make_request w.client method pathname body auth) in
    let refreshed = refresh_by (request_loop fuel net) w' in
    if is_unauthorized answer && auth && not retried && truthy w'.client.refresh_
    then elim refreshed [
      | none ↦ none
      | some (result, w'') ↦ elim result [
        | threw e ↦ some (threw (discovery_error 401 pathname (text_of answer)), w'')
        | returned _ ↦ request_loop fuel net w'' method pathname body auth true
      ]
    ]
    else some (settle pathname answer, w')

-- One call is enough for a request that is not retried.
loop_once :
    (fuel : ℕ) (net : Network) (w : World) (m : Method) (p : String) (b : Body)
    (auth retried : Bool)
    → auth && not retried ≡ false
    → request_loop (suc fuel) net w m p b auth retried ≡ some (request_once net w m p b auth)
unfolding request_loop request_once fetch
loop_once fuel net w m p b auth retried h = ground arith

refresh_by_lem :
    (fuel : ℕ) (net : Network) (w : World)
    → refresh_by (request_loop (suc fuel) net) w ≡ some (refresh net w)
unfolding refresh_by refresh
refresh_by_lem fuel net w = grind (
  arith,
  loop_once fuel net w http_post "/v1/auth/refresh" (refresh_body w.client.refresh_) false false
      refl,
)

-- With three calls or more `request` and `refresh`, which call each other, return what the
-- straight-line `request` returns, whatever the server answers.
pub request_terminates :
    (fuel : ℕ) (net : Network) (w : World) (m : Method) (p : String) (b : Body) (auth : Bool)
    → request_loop (suc (suc (suc fuel))) net w m p b auth false ≡ some (request net w m p b auth)
unfolding request_loop request fetch
request_terminates fuel net w m p b auth =
    let w' = (fetch net w (make_request w.client m p b auth)).1 in
    rw (refresh_by_lem (suc fuel) net w')
      (ground (arith, loop_once (suc fuel) net (refresh net w').1 m p b auth true))
