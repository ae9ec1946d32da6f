-- ===== src/Discovery/Api.antt =====
-- The methods of the discovery client (discovery.ts: onboard to deleteAccount).
use hwfa.Common.{
  ℕ, true, false, not, ◌||◌, Option, none, List, [], String, if◌then◌else◌, or_default,
}
use hwfa.Common.Text.{◌+++◌}
use hwfa.Discovery.{
  PublishedKeyBundle, OneTimePreKeyPublic, ContactMatch, DeviceInfo, http_get, http_post, http_put,
  http_delete, no_body, empty_object, register_body, verify_body, link_body, upload_body,
  hashes_body, Reply, Answer, unreachable, replied, fetch_failed, discovery_error, no_dev_otp,
  verification_failed, link_failed, Result, threw, returned, World, Network, truthy, is_ok,
}
use hwfa.Discovery.Transport.{make_request, fetch, request}

-- What follows an awaited request; what it throws goes on.
unfoldable pub and_then :
    {A : Type 0} → Result Reply × World → (Reply → World → Result A × World) → Result A × World
and_then (threw e, w) k = (threw e, w)
and_then (returned reply, w) k = k reply w

unfoldable pub keep_tokens : World → Reply → World
keep_tokens w reply = record w {
  client = record w.client { token = reply.token; refresh_ = reply.refresh_token };
}

module _ (net : Network) where
  unfoldable pub register :
      World → PublishedKeyBundle → List OneTimePreKeyPublic → String → Result Reply × World
  register w bundle keys phone_number =
      request net w http_post "/v1/accounts/register" (register_body phone_number bundle keys) true

  -- The token that it returns is the one that the client keeps.
  unfoldable pub submit_otp : World → Option String → String → Result (Option String) × World
  submit_otp w user_id code =
      and_then (request net w http_post "/v1/accounts/verify" (verify_body user_id code) false)
        (λ reply w'.
          if not reply.verified || not (truthy reply.token)
          then (threw verification_failed, w')
          else (returned reply.token, keep_tokens w' reply))

  unfoldable pub onboard :
      World
      → PublishedKeyBundle
      → List OneTimePreKeyPublic
      → String
      → Result (Option String) × World
  unfolding register submit_otp
  onboard w bundle keys phone_number = and_then (register w bundle keys phone_number) (λ reg w'.
      let (verified, w'') = submit_otp w' reg.user_id (or_default reg.dev_otp "") in
      if not (truthy reg.dev_otp)
      then (threw no_dev_otp, w')
      else elim verified [ threw e ↦ (threw e, w'') | returned _ ↦ (returned reg.user_id, w'') ])

  unfoldable pub fetch_bundle : World → String → Result (Option PublishedKeyBundle) × World
  fetch_bundle w user_id =
      and_then (request net w http_get ("/v1/keys/" +++ user_id) no_body true)
        (λ reply w'. (returned reply.bundle, w'))

  unfoldable pub create_link_token : World → Result (Option String) × World
  create_link_token w =
      and_then (request net w http_post "/v1/devices/link-token" empty_object true)
        (λ reply w'. (returned reply.token, w'))

  unfoldable pub link_device :
      World → String → PublishedKeyBundle → List OneTimePreKeyPublic → Result Reply × World
  link_device w token' bundle keys =
      and_then (request net w http_post "/v1/devices/link" (link_body token' bundle keys) false)
        (λ reply w'.
          if not (truthy reply.token)
          then (threw link_failed, w')
          else (returned reply, keep_tokens w' reply))

  unfoldable pub list_my_devices : World → Result (List DeviceInfo) × World
  list_my_devices w =
      and_then (request net w http_get "/v1/devices" no_body true)
        (λ reply w'. (returned (or_default reply.my_devices []), w'))

  unfoldable pub list_devices : World → String → Result (List String) × World
  list_devices w account_id =
      and_then (request net w http_get ("/v1/accounts/" +++ account_id +++ "/devices") no_body true)
        (λ reply w'. (returned (or_default reply.devices []), w'))

  unfoldable pub resolve_account : World → String → Result (Option String) × World
  resolve_account w user_id =
      and_then (request net w http_get ("/v1/accounts/" +++ user_id +++ "/account") no_body true)
        (λ reply w'. (returned reply.account_id, w'))

  unfoldable pub upload_one_time_pre_keys :
      World → List OneTimePreKeyPublic → Result (Option ℕ) × World
  upload_one_time_pre_keys w keys =
      and_then (request net w http_put "/v1/keys/upload" (upload_body keys) true)
        (λ reply w'. (returned reply.pool_size, w'))

  unfoldable pub pool_size : World → Result (Option ℕ) × World
  pool_size w =
      and_then (request net w http_get "/v1/keys/pool" no_body true)
        (λ reply w'. (returned reply.pool_size, w'))

  unfoldable pub get_salt : World → Result (Option String) × World
  get_salt w =
      and_then (request net w http_get "/v1/contacts/salt" no_body true)
        (λ reply w'. (returned reply.salt_b64, w'))

  unfoldable pub intersect : World → List String → Result (Option (List ContactMatch)) × World
  intersect w phone_hashes_b64 =
      and_then
        (request net w http_post "/v1/contacts/intersect" (hashes_body phone_hashes_b64) true)
        (λ reply w'. (returned reply.matches, w'))

  -- A call of `fetch` outside `request`, of which only the status is read.
  unfoldable pub settle_empty : String → Answer → Result Unit
  settle_empty pathname unreachable = threw fetch_failed
  settle_empty pathname (replied r) =
      if is_ok r.status then returned tt else threw (discovery_error r.status pathname r.text)

  -- `encode` is `encodeURIComponent`.
  unfoldable pub remove_device : (String → String) → World → String → Result Unit × World
  unfolding settle_empty
  remove_device encode w user_id =
      let (answer, w') =
        fetch net w
          (make_request w.client http_delete ("/v1/devices/" +++ encode user_id) no_body true) in
      (settle_empty "/v1/devices" answer, w')

  unfoldable pub delete_account : World → Result Unit × World
  unfolding settle_empty
  delete_account w =
      let (answer, w') =
        fetch net w (make_request w.client http_delete "/v1/accounts" no_body true) in
      elim (settle_empty "/v1/accounts" answer) [
        | threw e ↦ (threw e, w')
        | returned _ ↦ (returned tt, record w' { client = record w'.client { token = none } })
      ]
