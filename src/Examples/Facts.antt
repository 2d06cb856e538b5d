-- ===== src/Examples/Facts.antt =====
-- What holds of the test data.
use astarte_device_sdk_cpp.Base.{
  ℕ, ◌≤◌, ◌<◌, ◌^◌, ◌≡◌, ◌≢◌, ◌↔◌, refl, Bool, true, false, Option, none, some, List, [], ◌∷◌, ◌++◌,
  Text, codes, All, Result, ok, err, Error, arith, text_eq, text_lt,
}
use astarte_device_sdk_cpp.Base
use astarte_device_sdk_cpp.Base.Int.{pos}
use astarte_device_sdk_cpp.Data.{Data, float64, get_type}
use astarte_device_sdk_cpp.Policies.Reliability.{unique}
use astarte_device_sdk_cpp.EndpointPath.{
  ends_with_byte, match_fronts, match_loop, is_segment_match, is_parameter, pop_next_segment,
  opens_parameter, starts_with_byte, has_wildcard,
}
use astarte_device_sdk_cpp.EndpointPath
use astarte_device_sdk_cpp.Mapping.{match_path}
use astarte_device_sdk_cpp.Interface.Parse.Laws.{IsWellFormed}
use astarte_device_sdk_cpp.Interface.Validation.{here, Conforms}
use astarte_device_sdk_cpp.Examples.{doubles, value_mapping, values_interface}
use astarte_device_sdk_cpp.OrderedMap.{find}
use astarte_device_sdk_cpp.OrderedMap.Laws.{IsOrdered}
use astarte_device_sdk_cpp.Introspection.{get}
use astarte_device_sdk_cpp.Introspection.Versions.{IsWellKept}
use astarte_device_sdk_cpp.Examples.{values_interface, introspection}

abbrev pub path : Text
path = codes "/s1/v"

abbrev pub reading : Data ℕ
reading = float64 7

pub matched : match_path value_mapping path ≡ true
unfolding match_path EndpointPath.match_path ends_with_byte match_fronts match_loop is_segment_match
    is_parameter pop_next_segment Base.find opens_parameter starts_with_byte has_wildcard text_eq
matched = refl

pub reading-Conforms : Conforms doubles values_interface path reading (some (pos 5))
unfolding get_type
reading-Conforms = record {
  mapping = value_mapping;
  chosen = here matched;
  typed = refl;
  finite = refl;
  stamped = tt;
}

pub reading-reliability : reading-Conforms.mapping.reliability ≡ some unique
unfolding reading-Conforms
reading-reliability = refl

pub values_interface-IsWellFormed : IsWellFormed values_interface
values_interface-IsWellFormed = record {
  major_bounded = omega arith;
  minor_bounded = omega arith;
  has_mappings = λ e. cc;
  reliable = ((unique, refl), tt);
}

pub introspection-IsOrdered : IsOrdered introspection.interfaces
unfolding text_lt
introspection-IsOrdered = ((refl, tt), (tt, tt))

pub introspection-IsWellKept : IsWellKept introspection
introspection-IsWellKept = record { ordered = introspection-IsOrdered; named = (refl, (refl, tt)) }

pub stored : get introspection (codes "a.B") ≡ ok values_interface
unfolding get find text_eq
stored = refl
