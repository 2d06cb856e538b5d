-- ===== src/Interface.antt =====
-- private/mqtt/interface.hpp and src/mqtt/interface.cpp: the class `Interface`, a set of mappings
-- with their version, type, owner and aggregation. A pointer to a mapping is the mapping; the
-- timestamp that may be absent is an `Option`; an object is the list of its entries in the order
-- of iteration. Logging is left out.
pub mod Parse
pub mod Validation
pub mod Quality
pub mod Tests
use astarte_device_sdk_cpp.Base.{
  ℕ, Bool, true, false, not, ◌&&◌, ◌||◌, Option, none, some, List, [], ◌∷◌, ◌++◌, Text,
  if◌then◌else◌, Result, ok, err, ◌>>=◌, ◌>>◌, reject_if, Error,
}
use astarte_device_sdk_cpp.Base.Int.{ℤ}
use astarte_device_sdk_cpp.Data.{Ownership, Doubles, Data}
use astarte_device_sdk_cpp.Policies.Reliability.{Reliability}
use astarte_device_sdk_cpp.Policies.Reliability
use astarte_device_sdk_cpp.Policies.InterfaceType.{InterfaceType}
use astarte_device_sdk_cpp.Policies.InterfaceAggregation.{InterfaceAggregation, is_individual}
use astarte_device_sdk_cpp.Mapping.{Mapping, match_path, check_data_type}

pub record Interface : Type 0 where
  pub interface_name : Text
  pub version_major : ℕ
  pub version_minor : ℕ
  pub interface_type : InterfaceType
  pub ownership : Ownership
  pub aggregation : Option InterfaceAggregation
  pub description : Option Text
  pub doc : Option Text
  pub mappings : List Mapping

-- The loop of `get_mapping`.
unfoldable pub first_match : List Mapping → Text → Result Mapping
first_match [] path = err Error.interface_validation_error
first_match (mapping ∷ mappings) path =
    if match_path mapping path then ok mapping else first_match mappings path

unfoldable pub get_mapping : Interface → Text → Result Mapping
get_mapping interface path = first_match interface.mappings path

-- An explicit timestamp is required and there is none.
abbrev pub lacks_timestamp : Option Bool → Option ℤ → Bool
lacks_timestamp (some true) none = true
lacks_timestamp _ _ = false

-- An explicit timestamp is not supported and there is one.
abbrev pub has_unsupported_timestamp : Option Bool → Option ℤ → Bool
has_unsupported_timestamp (some false) (some t) = true
has_unsupported_timestamp _ _ = false

module _ (d : Doubles) where
  open d use {Double}

  unfoldable pub validate_individual : Interface → Text → Data Double → Option ℤ → Result (Unit {0})
  validate_individual interface path data' timestamp = do
    mapping ← get_mapping interface path
    check_data_type d mapping data'
    reject_if (lacks_timestamp mapping.explicit_timestamp timestamp)
        Error.interface_validation_error
    reject_if (has_unsupported_timestamp mapping.explicit_timestamp timestamp)
        Error.interface_validation_error
    ok tt

  unfoldable pub validate_object :
      Interface → Text → List (Text × Data Double) → Option ℤ → Result (Unit {0})
  validate_object interface common_path [] timestamp = ok tt
  validate_object interface common_path ((endpoint_path, data') ∷ object) timestamp = do
    validate_individual interface (common_path ++ b'/' ∷ endpoint_path) data' timestamp
    validate_object interface common_path object timestamp

-- The mapping whose quality of service counts: the one of the path, or the first of an object.
unfoldable pub qos_mapping : Interface → Text → Result Mapping
qos_mapping interface path = elim interface.aggregation [
  | none ↦ get_mapping interface path
  | some aggregation ↦
      if is_individual aggregation
      then get_mapping interface path
      else elim interface.mappings [ [] ↦ err Error.mqtt_error | mapping ∷ _ ↦ ok mapping ]
]

unfoldable pub get_qos : Interface → Text → Result ℕ
get_qos interface path = do
  mapping ← qos_mapping interface path
  elim mapping.reliability [
    | none ↦ err Error.mqtt_error
    | some reliability ↦ ok (Reliability.get_qos reliability)
  ]
