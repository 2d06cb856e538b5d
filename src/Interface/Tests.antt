-- ===== src/Interface/Tests.antt =====
-- An interface with one mapping, read from a document and asked about a datum.
use astarte_device_sdk_cpp.Base.{
  ℕ, ◌≡◌, ◌↔◌, refl, none, some, [], ◌∷◌, ◌++◌, Text, codes, All, ok, text_eq,
}
use astarte_device_sdk_cpp.Base.Int.{pos}
use astarte_device_sdk_cpp.Data.{Data, get_type}
use astarte_device_sdk_cpp.Data.Names.{astarte_type_from_str, ownership_from_str}
use astarte_device_sdk_cpp.Json.{get_field, optional_value_from_json}
use astarte_device_sdk_cpp.Policies.Reliability.{unique}
use astarte_device_sdk_cpp.Policies.Reliability
use astarte_device_sdk_cpp.Policies.InterfaceType
use astarte_device_sdk_cpp.Mapping.{Mapping, match_path, check_data_type}
use astarte_device_sdk_cpp.Mapping
use astarte_device_sdk_cpp.Mapping.Checking.{IsFinite, check_data_type_iff}
use astarte_device_sdk_cpp.Interface.{Interface, validate_individual, validate_object}
use astarte_device_sdk_cpp.Interface.Parse.{
  convert_version, parse_version_field, parse_interface_type, parse_ownership, parse_aggregation,
  mappings_from, mappings_from_interface_json, try_from_json,
}
use astarte_device_sdk_cpp.Interface.Parse.Laws.{IsWellFormed, try_from_json-IsWellFormed}
use astarte_device_sdk_cpp.Interface.Validation.{
  Conforms, validate_individual_iff, validate_object_iff,
}
use astarte_device_sdk_cpp.Examples.Facts.{path, reading, reading-Conforms}
use astarte_device_sdk_cpp.Examples.{
  doubles, value_mapping, values_interface, documents, interface_document,
}

valid : validate_individual doubles values_interface path reading (some (pos 5)) ≡ ok tt
valid =
    (validate_individual_iff doubles values_interface path reading (some (pos 5))).1
      reading-Conforms

abbrev pub read_interface : Interface
read_interface = record values_interface {
  mappings =
      record value_mapping { explicit_timestamp = none; reliability = some Reliability.unreliable }
      ∷ [];
}

pub read_document : try_from_json documents interface_document ≡ ok read_interface
unfolding try_from_json get_field text_eq parse_version_field convert_version parse_interface_type
    InterfaceType.try_from_str parse_ownership ownership_from_str parse_aggregation
    mappings_from_interface_json mappings_from Mapping.try_from_json astarte_type_from_str
    optional_value_from_json
read_document = refl

check_data_type_iff_example :
    (check_data_type doubles value_mapping reading ≡ ok tt)
    ↔ ((value_mapping.type ≡ get_type reading) × IsFinite doubles reading)
check_data_type_iff_example = check_data_type_iff doubles value_mapping reading

validate_individual_iff_example :
    (validate_individual doubles values_interface path reading (some (pos 5)) ≡ ok tt)
    ↔ Conforms doubles values_interface path reading (some (pos 5))
validate_individual_iff_example =
    validate_individual_iff doubles values_interface path reading (some (pos 5))

validate_object_iff_example :
    (validate_object doubles values_interface (codes "/s1") ((codes "v", reading) ∷ []) none
      ≡ ok tt)
    ↔ All {A = Text × Data ℕ}
        (λ entry. Conforms doubles values_interface (codes "/s1" ++ b'/' ∷ entry.0) entry.1 none)
        ((codes "v", reading) ∷ [])
validate_object_iff_example =
    validate_object_iff doubles values_interface (codes "/s1") ((codes "v", reading) ∷ []) none

try_from_json-IsWellFormed_example : IsWellFormed read_interface
try_from_json-IsWellFormed_example =
    try_from_json-IsWellFormed documents interface_document read_interface read_document
