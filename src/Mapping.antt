-- ===== src/Mapping.antt =====
-- private/mqtt/mapping.hpp and src/mqtt/mapping.cpp: the class `Mapping`, one endpoint of an
-- interface, with `match_path`, `check_data_type` and `try_from_json`.
pub mod Checking
use astarte_device_sdk_cpp.Base.{
  ℕ, Bool, true, false, not, ◌&&◌, Option, none, some, List, [], ◌∷◌, Text, codes, all,
  if◌then◌else◌, Result, ok, err, ◌>>=◌, ◌>>◌, reject_if, Error,
}
use astarte_device_sdk_cpp.Base.Int.{ℤ}
use astarte_device_sdk_cpp.Data.{AstarteType, Doubles, Data, float64, float64s, get_type, same_type}
use astarte_device_sdk_cpp.Data.Names.{astarte_type_from_str}
use astarte_device_sdk_cpp.Json.{JsonLibrary, Kind, same_kind, get_field, optional_value_from_json}
use astarte_device_sdk_cpp.Policies.Reliability.{Reliability, unreliable}
use astarte_device_sdk_cpp.Policies.Reliability
use astarte_device_sdk_cpp.Policies.Retention.{Retention}
use astarte_device_sdk_cpp.Policies.Retention
use astarte_device_sdk_cpp.Policies.DatabaseRetentionPolicy.{DatabaseRetentionPolicy}
use astarte_device_sdk_cpp.Policies.DatabaseRetentionPolicy
use astarte_device_sdk_cpp.EndpointPath

pub record Mapping : Type 0 where
  pub endpoint : Text
  pub type : AstarteType
  pub explicit_timestamp : Option Bool
  pub reliability : Option Reliability
  pub retention : Option Retention
  pub expiry : Option ℤ
  pub database_retention_policy : Option DatabaseRetentionPolicy
  pub database_retention_ttl : Option ℤ
  pub allow_unset : Option Bool
  pub description : Option Text
  pub doc : Option Text

unfoldable pub match_path : Mapping → Text → Bool
match_path mapping path = EndpointPath.match_path mapping.endpoint path

module _ (d : Doubles) where
  open d use {Double, is_finite}

  -- `std::isfinite(data.into<double>())`, read only where the data is a double.
  abbrev pub double_is_finite : Data Double → Bool
  double_is_finite (float64 x) = is_finite x
  double_is_finite _ = true

  -- The loop over `data.into<std::vector<double>>()`, read only where the data is such an array.
  abbrev pub doubles_are_finite : Data Double → Bool
  doubles_are_finite (float64s xs) = all is_finite xs
  doubles_are_finite _ = true

  unfoldable pub check_data_type : Mapping → Data Double → Result (Unit {0})
  check_data_type mapping data' = do
    reject_if (not (same_type mapping.type (get_type data'))) Error.interface_validation_error
    reject_if (same_type mapping.type AstarteType.double && not (double_is_finite data'))
        Error.interface_validation_error
    reject_if (same_type mapping.type AstarteType.double_array && not (doubles_are_finite data'))
        Error.interface_validation_error
    ok tt

-- `reliability_opt.value_or(Reliability())`.
abbrev pub reliability_or_default : Option Reliability → Reliability
reliability_or_default none = unreliable
reliability_or_default (some r) = r

module _ (lib : JsonLibrary) where
  open lib use {Json, kind, get_text, get_int64, get_bool}

  unfoldable pub try_from_json : Json → Result Mapping
  try_from_json json = do
    reject_if (not (same_kind (kind json) Kind.object)) Error.interface_validation_error
    endpoint_json ← get_field lib json (codes "endpoint") Kind.string
    type_json ← get_field lib json (codes "type") Kind.string
    type ← astarte_type_from_str (get_text type_json)
    ok (record {
      endpoint = get_text endpoint_json;
      type = type;
      explicit_timestamp = optional_bool (codes "explicit_timestamp");
      reliability = some (
          reliability_or_default (
            optional_value_from_json lib Kind.string (λ j. Reliability.from_text (get_text j)) json
              (codes "reliability")));
      retention =
          optional_value_from_json lib Kind.string (λ j. Retention.from_text (get_text j)) json
            (codes "retention");
      expiry = optional_int (codes "expiry");
      database_retention_policy =
          optional_value_from_json lib Kind.string
            (λ j. DatabaseRetentionPolicy.from_text (get_text j)) json
            (codes "database_retention_policy");
      database_retention_ttl = optional_int (codes "database_retention_ttl");
      allow_unset = optional_bool (codes "allow_unset");
      description = optional_text (codes "description");
      doc = optional_text (codes "doc");
    })
    where
      optional_bool : Text → Option Bool
      optional_bool = optional_value_from_json lib Kind.boolean get_bool json

      optional_int : Text → Option ℤ
      optional_int = optional_value_from_json lib Kind.number_integer get_int64 json

      optional_text : Text → Option Text
      optional_text = optional_value_from_json lib Kind.string get_text json
