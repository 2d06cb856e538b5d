-- ===== src/EndpointPath.antt =====
-- src/mqtt/mapping.cpp: `pop_next_segment`, `is_segment_match` and `Mapping::match_path`, which
-- compares a mapping's endpoint, such as "/%{sensor}/value", with the path of a datum.
-- Texts are byte lists; a `string_view` that is advanced is the list that is left.
pub mod Segments
pub mod Joined
pub mod Wildcards
pub mod Tests
use astarte_device_sdk_cpp.Base.{
  ℕ, zero, suc, ◌+◌, Bool, true, false, not, ◌&&◌, ◌||◌, Option, none, some, List, [], ◌∷◌, Text,
  codes, text_eq, ltb, leb, ◌==◌, if◌then◌else◌, length, is_empty, find, take, drop,
}

-- `str.front() == c`, false on an empty view.
unfoldable pub starts_with_byte : ℕ → Text → Bool
starts_with_byte c [] = false
starts_with_byte c (a ∷ s) = a == c

-- `str.back() == c`, false on an empty view.
unfoldable pub ends_with_byte : ℕ → Text → Bool
ends_with_byte c [] = false
ends_with_byte c (a ∷ []) = a == c
ends_with_byte c (a ∷ b ∷ s) = ends_with_byte c (b ∷ s)

-- `str.starts_with("%{")`.
unfoldable pub opens_parameter : Text → Bool
opens_parameter [] = false
opens_parameter (a ∷ s) = a == b'%' && starts_with_byte b'{' s

-- `str.find_first_of("#+") != npos`.
unfoldable pub has_wildcard : Text → Bool
has_wildcard [] = false
has_wildcard (c ∷ s) = (c == b'#' || c == b'+') || has_wildcard s

-- The segment before the next slash, and the view past that slash.
unfoldable pub pop_next_segment : Text → Text × Text
pop_next_segment str = elim (find b'/' str) [
  | none ↦ (str, [])
  | some pos ↦ (take pos str, drop (pos + 1) str)
]

unfoldable pub is_parameter : Text → Bool
is_parameter pattern =
    leb 3 (length pattern) && (opens_parameter pattern && ends_with_byte b'}' pattern)

unfoldable pub is_segment_match : Text → Text → Bool
is_segment_match pattern path_seg =
    if is_parameter pattern
    then (if is_empty path_seg then false else not (has_wildcard path_seg))
    else text_eq pattern path_seg

-- The `while` of `match_path`; each round takes at least one byte off the path.
unfoldable pub match_loop : ℕ → Text → Text → Bool
match_loop zero endpoint path = false
match_loop (suc fuel) endpoint path =
    let (endpoint_seg, endpoint') = pop_next_segment endpoint in
    let (path_seg, path') = pop_next_segment path in
    let rest = match_loop fuel endpoint' path' in
    if is_empty endpoint || is_empty path
    then is_empty endpoint && is_empty path
    else if is_segment_match endpoint_seg path_seg
    then rest
    else false

-- The part behind the checks of length and slashes; the views have lost their first byte.
unfoldable pub match_fronts : Text → Text → Bool
match_fronts [] path = false
match_fronts (e ∷ endpoint) [] = false
match_fronts (e ∷ endpoint) (p ∷ path) =
    if p == e then match_loop (suc (length path)) endpoint path else false

unfoldable pub match_path : Text → Text → Bool
match_path endpoint path =
    if ltb (length path) 2 || ends_with_byte b'/' path then false else match_fronts endpoint path
