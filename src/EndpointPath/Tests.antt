-- ===== src/EndpointPath/Tests.antt =====
-- Concrete endpoints and paths.
use astarte_device_sdk_cpp.Base.{◌≡◌, refl, true, false, [], ◌∷◌, codes, arith, find, text_eq}
use astarte_device_sdk_cpp.EndpointPath.{
  match_path, match_loop, is_segment_match, ends_with_byte, match_fronts, is_parameter,
  pop_next_segment, opens_parameter, starts_with_byte, has_wildcard,
}
use astarte_device_sdk_cpp.EndpointPath.Joined.{matches, path_of, match_path-join}
use astarte_device_sdk_cpp.EndpointPath.Wildcards.{
  NoWildcard, match_path-NoWildcard, match_loop_fuel,
}

matched : match_path (codes "/%{id}/v") (codes "/s1/v") ≡ true
unfolding match_path ends_with_byte match_fronts match_loop is_segment_match is_parameter
    pop_next_segment find opens_parameter starts_with_byte has_wildcard text_eq
matched = refl

trailing_slash : match_path (codes "/%{id}/v") (codes "/s1/v/") ≡ false
unfolding match_path ends_with_byte
trailing_slash = refl

match_path-join_example :
    match_path (path_of (codes "%{id}" ∷ codes "v" ∷ [])) (path_of (codes "s1" ∷ codes "v" ∷ []))
    ≡ matches (codes "%{id}" ∷ codes "v" ∷ []) (codes "s1" ∷ codes "v" ∷ [])
match_path-join_example =
    match_path-join (codes "%{id}" ∷ codes "v" ∷ []) (codes "s1" ∷ codes "v" ∷ []) (ground arith)
      (ground arith)

match_path-NoWildcard_example : NoWildcard (codes "/s1/v")
match_path-NoWildcard_example =
    match_path-NoWildcard (codes "/%{id}/v") (codes "/s1/v") matched (ground arith)

match_loop_fuel_example :
    match_loop 5 (codes "%{id}/v") (codes "s1/v") ≡ match_loop 9 (codes "%{id}/v") (codes "s1/v")
match_loop_fuel_example =
    match_loop_fuel 5 9 (codes "%{id}/v") (codes "s1/v") (omega arith) (omega arith)
