-- ===== src/Wire/Bodies.antt =====
-- Building, recognising and parsing the five kinds of body. A parser returns `none` for another
-- kind of body and for a payload that does not parse.
pub mod Laws
use hwfa.Common.{Bool, not, Option, none, String, if◌then◌else◌}
use hwfa.Common.Text.{◌+++◌, starts_with, slice_after}
use hwfa.Wire.{
  Json, CallSignal, GroupPayload, TypingPayload, StatusPayload, MediaKeyMaterial, MediaReference,
}

abbrev pub call_prefix : String
call_prefix = "hwfa-call:"

abbrev pub group_prefix : String
group_prefix = "hwfa-group:"

abbrev pub typing_prefix : String
typing_prefix = "hwfa-typing:"

abbrev pub status_prefix : String
status_prefix = "hwfa-status:"

abbrev pub media_prefix : String
media_prefix = "hwfa-media:"

unfoldable pub build_call_body : Json CallSignal → CallSignal → String
build_call_body json signal = call_prefix +++ json.stringify signal

unfoldable pub is_call_body : String → Bool
is_call_body body = starts_with body call_prefix

unfoldable pub parse_call_body : Json CallSignal → String → Option CallSignal
unfolding is_call_body
parse_call_body json body =
    if not (is_call_body body) then none else json.parse (slice_after body call_prefix)

unfoldable pub build_group_body : Json GroupPayload → GroupPayload → String
build_group_body json payload = group_prefix +++ json.stringify payload

unfoldable pub is_group_body : String → Bool
is_group_body body = starts_with body group_prefix

unfoldable pub parse_group_body : Json GroupPayload → String → Option GroupPayload
unfolding is_group_body
parse_group_body json body =
    if not (is_group_body body) then none else json.parse (slice_after body group_prefix)

unfoldable pub build_typing_body : Json TypingPayload → TypingPayload → String
build_typing_body json payload = typing_prefix +++ json.stringify payload

unfoldable pub is_typing_body : String → Bool
is_typing_body body = starts_with body typing_prefix

unfoldable pub parse_typing_body : Json TypingPayload → String → Option TypingPayload
unfolding is_typing_body
parse_typing_body json body =
    if not (is_typing_body body) then none else json.parse (slice_after body typing_prefix)

unfoldable pub build_status_body : Json StatusPayload → StatusPayload → String
build_status_body json payload = status_prefix +++ json.stringify payload

unfoldable pub is_status_body : String → Bool
is_status_body body = starts_with body status_prefix

unfoldable pub parse_status_body : Json StatusPayload → String → Option StatusPayload
unfolding is_status_body
parse_status_body json body =
    if not (is_status_body body) then none else json.parse (slice_after body status_prefix)

unfoldable pub build_media_body : Json MediaReference → MediaKeyMaterial → String → String
build_media_body json key_material locator =
    media_prefix +++ json.stringify (record { material = key_material; locator = locator })

unfoldable pub is_media_body : String → Bool
is_media_body body = starts_with body media_prefix

unfoldable pub parse_media_body : Json MediaReference → String → Option MediaReference
unfolding is_media_body
parse_media_body json body =
    if not (is_media_body body) then none else json.parse (slice_after body media_prefix)
