-- ===== src/Wire/Bodies/Laws.antt =====
-- A body is recognised as its own kind and as no other, and its payload is read back.
use hwfa.Common.{true, false, some, Bool, List, [], ◌∷◌, ◌≡◌, refl, String}
use hwfa.Common.Text.{clash, starts_with-append, slice_after-append, starts_with_of_clash}
use hwfa.Wire.{
  Json, RoundTrips, CallSignal, GroupPayload, TypingPayload, StatusPayload, MediaKeyMaterial,
  MediaReference,
}
use hwfa.Wire.Bodies.{
  call_prefix, group_prefix, typing_prefix, status_prefix, media_prefix, build_call_body,
  is_call_body, parse_call_body, build_group_body, is_group_body, parse_group_body,
  build_typing_body, is_typing_body, parse_typing_body, build_status_body, is_status_body,
  parse_status_body, build_media_body, is_media_body, parse_media_body,
}

-- The five tests, in the order in which an inbound body meets them.
abbrev pub kinds : String → List Bool
kinds body =
    is_typing_body body
    ∷ is_call_body body
    ∷ is_group_body body
    ∷ is_status_body body
    ∷ is_media_body body
    ∷ []

ruleset prefix_laws = (starts_with-append, slice_after-append)

module _ (json : Json CallSignal) (s : CallSignal) where
  pub kinds-build_call_body :
      kinds (build_call_body json s) ≡ false ∷ true ∷ false ∷ false ∷ false ∷ []
  unfolding build_call_body is_call_body is_group_body is_typing_body is_status_body is_media_body
      clash
  kinds-build_call_body = rw (
    starts_with-append,
    starts_with_of_clash call_prefix (json.stringify s) typing_prefix refl,
    starts_with_of_clash call_prefix (json.stringify s) group_prefix refl,
    starts_with_of_clash call_prefix (json.stringify s) status_prefix refl,
    starts_with_of_clash call_prefix (json.stringify s) media_prefix refl,
  )

  pub parse_call_body-build_call_body :
      RoundTrips json s → parse_call_body json (build_call_body json s) ≡ some s
  unfolding parse_call_body build_call_body
  parse_call_body-build_call_body rt = simp prefix_laws rt

module _ (json : Json GroupPayload) (p : GroupPayload) where
  pub kinds-build_group_body :
      kinds (build_group_body json p) ≡ false ∷ false ∷ true ∷ false ∷ false ∷ []
  unfolding build_group_body is_call_body is_group_body is_typing_body is_status_body is_media_body
      clash
  kinds-build_group_body = rw (
    starts_with-append,
    starts_with_of_clash group_prefix (json.stringify p) typing_prefix refl,
    starts_with_of_clash group_prefix (json.stringify p) call_prefix refl,
    starts_with_of_clash group_prefix (json.stringify p) status_prefix refl,
    starts_with_of_clash group_prefix (json.stringify p) media_prefix refl,
  )

  pub parse_group_body-build_group_body :
      RoundTrips json p → parse_group_body json (build_group_body json p) ≡ some p
  unfolding parse_group_body build_group_body
  parse_group_body-build_group_body rt = simp prefix_laws rt

module _ (json : Json TypingPayload) (p : TypingPayload) where
  pub kinds-build_typing_body :
      kinds (build_typing_body json p) ≡ true ∷ false ∷ false ∷ false ∷ false ∷ []
  unfolding build_typing_body is_call_body is_group_body is_typing_body is_status_body is_media_body
      clash
  kinds-build_typing_body = rw (
    starts_with-append,
    starts_with_of_clash typing_prefix (json.stringify p) call_prefix refl,
    starts_with_of_clash typing_prefix (json.stringify p) group_prefix refl,
    starts_with_of_clash typing_prefix (json.stringify p) status_prefix refl,
    starts_with_of_clash typing_prefix (json.stringify p) media_prefix refl,
  )

  pub parse_typing_body-build_typing_body :
      RoundTrips json p → parse_typing_body json (build_typing_body json p) ≡ some p
  unfolding parse_typing_body build_typing_body
  parse_typing_body-build_typing_body rt = simp prefix_laws rt

module _ (json : Json StatusPayload) (p : StatusPayload) where
  pub kinds-build_status_body :
      kinds (build_status_body json p) ≡ false ∷ false ∷ false ∷ true ∷ false ∷ []
  unfolding build_status_body is_call_body is_group_body is_typing_body is_status_body is_media_body
      clash
  kinds-build_status_body = rw (
    starts_with-append,
    starts_with_of_clash status_prefix (json.stringify p) typing_prefix refl,
    starts_with_of_clash status_prefix (json.stringify p) call_prefix refl,
    starts_with_of_clash status_prefix (json.stringify p) group_prefix refl,
    starts_with_of_clash status_prefix (json.stringify p) media_prefix refl,
  )

  pub parse_status_body-build_status_body :
      RoundTrips json p → parse_status_body json (build_status_body json p) ≡ some p
  unfolding parse_status_body build_status_body
  parse_status_body-build_status_body rt = simp prefix_laws rt

module _ (json : Json MediaReference) (k : MediaKeyMaterial) (locator : String) where
  pub kinds-build_media_body :
      kinds (build_media_body json k locator) ≡ false ∷ false ∷ false ∷ false ∷ true ∷ []
  unfolding build_media_body is_call_body is_group_body is_typing_body is_status_body is_media_body
      clash
  kinds-build_media_body =
      let s = json.stringify (record { material = k; locator = locator }) in
      rw (
        starts_with-append,
        starts_with_of_clash media_prefix s typing_prefix refl,
        starts_with_of_clash media_prefix s call_prefix refl,
        starts_with_of_clash media_prefix s group_prefix refl,
        starts_with_of_clash media_prefix s status_prefix refl,
      )

  -- The reference in a media body is read back as it was built, if its JSON reads back as written.
  pub parse_media_body-build_media_body :
      RoundTrips json (record { material = k; locator = locator })
      → parse_media_body json (build_media_body json k locator)
        ≡ some (record { material = k; locator = locator })
  unfolding parse_media_body build_media_body
  parse_media_body-build_media_body rt = simp prefix_laws rt
