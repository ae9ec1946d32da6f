-- ===== src/Discovery/Laws/Alone.antt =====
-- A call of the discovery client that no other overlaps does what `request` says.
use hwfa.Common.{Bool, List, [], ◌∷◌, ◌≡◌, arith, String}
use hwfa.Discovery.{Method, Body, Answer, Discovery, Network}
use hwfa.Discovery.Transport.{fetch, request_once, take_refreshed, refresh, request}
use hwfa.Discovery.Shared.{
  Stage, settled, Task, began, answered, refreshed, init, start_refresh, begin, retries, receive,
  receive_at, retries_at, resume, resume_all, refreshed_client, finish_refresh, step, run,
}

-- The answers that one call can get: its own, that of the refresh and that of the retry.
unfoldable pub script : Answer → Answer → Answer → Network
script first middle last (r ∷ []) = first
script first middle last (r ∷ r' ∷ []) = middle
script first middle last _ = last

abbrev pub stages : List Task → List Stage
stages [] = []
stages (t ∷ ts) = t.stage ∷ stages ts

-- A call that no other call overlaps ends in the result that `request` returns, and leaves the same
-- tokens, whatever the three answers are.
pub alone_refines_request :
    (c : Discovery) (m : Method) (p : String) (b : Body) (auth : Bool) (a1 a2 a3 : Answer)
    → let s = run (init c) (began p auth ∷ answered 0 a1 ∷ refreshed a2 ∷ answered 0 a3 ∷ []) in
      let (result, w) =
        request (script a1 a2 a3) (record { client = c; requests = [] }) m p b auth in
      (stages s.tasks ≡ settled result ∷ []) × (s.client ≡ w.client)
unfolding run step begin receive_at retries_at retries receive start_refresh finish_refresh
    resume_all resume refreshed_client request refresh request_once fetch take_refreshed script
alone_refines_request c m p b auth a1 a2 a3 = ground arith
