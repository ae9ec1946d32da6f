-- ===== src/Discovery/Laws/Tokens.antt =====
-- The access token before a connection, and what the deletion of the account leaves.
use hwfa.Common.{
  ℕ, ◌+◌, true, not, ◌&&◌, Option, none, ◌∷◌, ◌≡◌, arith, String, length, if◌then◌else◌, or_default,
}
use hwfa.Discovery.{http_delete, no_body, World, Network, truthy}
use hwfa.Discovery.Transport.{
  make_request, fetch, request_once, take_refreshed, refresh, ensure_access, expiring_soon,
}
use hwfa.Discovery.Api.{delete_account}
use hwfa.Discovery.Laws.Requests.{refresh_request, is_returned}

module _ (read_exp : String → Option ℕ) (now : ℕ) (net : Network) (w : World) where
  -- `ensureAccess` makes the one request of a refresh if there is a refresh token and the access token
  -- is absent or ends within a minute, else none and it changes nothing.
  pub ensure_access_count :
      length (ensure_access read_exp now net w).1.requests
      ≡ length w.requests
        + (if truthy w.client.refresh_
              && not (
                  truthy w.client.token
                  && not (expiring_soon read_exp now (or_default w.client.token "")))
            then 1
            else 0)
  unfolding ensure_access refresh request_once fetch take_refreshed
  ensure_access_count = ground arith

  -- The account is deleted and with it the access token, but the refresh token stays: the next
  -- `ensureAccess` sends the token of the deleted account.
  pub delete_account-keeps_refresh :
      is_returned (delete_account net w).0 ≡ true
      → truthy w.client.refresh_ ≡ true
      → let w' = (delete_account net w).1 in
        (w'.client.token ≡ none)
        × (w'.client.refresh_ ≡ w.client.refresh_)
        × ((ensure_access read_exp now net w').1.requests
            ≡ refresh_request w'.client
              ∷ make_request w.client http_delete "/v1/accounts" no_body true
              ∷ w.requests)
  unfolding delete_account ensure_access refresh request_once fetch take_refreshed
  delete_account-keeps_refresh d x = (ground arith, ground arith, ground arith)
