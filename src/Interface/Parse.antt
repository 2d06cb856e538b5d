-- ===== src/Interface/Parse.antt =====
-- src/mqtt/interface.cpp: `Interface::try_from_json` and its helpers.
pub mod Laws
use astarte_device_sdk_cpp.Base.{
  ℕ, Bool, true, false, not, Option, none, some, List, [], ◌∷◌, Text, codes, leb, ltb, is_empty,
  if◌then◌else◌, Result, ok, err, ◌>>=◌, ◌>>◌, reject_if, Error,
}
use astarte_device_sdk_cpp.Base.Int.{ℤ, pos, negsuc}
use astarte_device_sdk_cpp.Data.{Ownership}
use astarte_device_sdk_cpp.Data.Names.{ownership_from_str}
use astarte_device_sdk_cpp.Json.{JsonLibrary, Kind, same_kind, get_field, optional_value_from_json}
use astarte_device_sdk_cpp.Policies.InterfaceType.{InterfaceType}
use astarte_device_sdk_cpp.Policies.InterfaceType
use astarte_device_sdk_cpp.Policies.InterfaceAggregation.{InterfaceAggregation}
use astarte_device_sdk_cpp.Policies.InterfaceAggregation
use astarte_device_sdk_cpp.Mapping.{Mapping}
use astarte_device_sdk_cpp.Mapping
use astarte_device_sdk_cpp.Interface.{Interface}

-- `std::numeric_limits<uint32_t>::max()`.
abbrev pub uint32_max : ℕ
uint32_max = 4294967295

unfoldable pub convert_version : ℤ → Result ℕ
convert_version (negsuc n) = err Error.invalid_interface_version
convert_version (pos n) = if ltb uint32_max n then err Error.invalid_interface_version else ok n

module _ (lib : JsonLibrary) where
  open lib use {Json, kind, find, get_text, get_int64, elements}

  unfoldable pub parse_version_field : Json → Text → Result ℕ
  parse_version_field interface key = do
    field ← get_field lib interface key Kind.number_integer
    convert_version (get_int64 field)

  unfoldable pub parse_interface_type : Json → Result InterfaceType
  parse_interface_type interface = do
    field ← get_field lib interface (codes "type") Kind.string
    InterfaceType.try_from_str (get_text field)

  unfoldable pub parse_ownership : Json → Result Ownership
  parse_ownership interface = do
    field ← get_field lib interface (codes "ownership") Kind.string
    ownership_from_str (get_text field)

  unfoldable pub parse_aggregation : Json → Result (Option InterfaceAggregation)
  parse_aggregation interface = elim (find interface (codes "aggregation")) [
    | none ↦ ok none
    | some field ↦ do
      reject_if (not (same_kind (kind field) Kind.string)) Error.interface_validation_error
      aggregation ← InterfaceAggregation.try_from_str (get_text field)
      ok (some aggregation)
  ]

  -- The loop of `mappings_from_interface_json`.
  unfoldable pub mappings_from : List Json → Result (List Mapping)
  mappings_from [] = ok []
  mappings_from (json ∷ jsons) = do
    mapping ← Mapping.try_from_json lib json
    mappings ← mappings_from jsons
    ok (mapping ∷ mappings)

  unfoldable pub mappings_from_interface_json : Json → Result (List Mapping)
  mappings_from_interface_json interface = do
    field ← get_field lib interface (codes "mappings") Kind.array
    mappings_from (elements field)

  unfoldable pub try_from_json : Json → Result Interface
  try_from_json interface = do
    name ← get_field lib interface (codes "interface_name") Kind.string
    version_major ← parse_version_field interface (codes "version_major")
    version_minor ← parse_version_field interface (codes "version_minor")
    interface_type ← parse_interface_type interface
    ownership ← parse_ownership interface
    aggregation ← parse_aggregation interface
    mappings ← mappings_from_interface_json interface
    reject_if (is_empty mappings) Error.interface_validation_error
    ok (record {
      interface_name = get_text name;
      version_major = version_major;
      version_minor = version_minor;
      interface_type = interface_type;
      ownership = ownership;
      aggregation = aggregation;
      description =
          optional_value_from_json lib Kind.string get_text interface (codes "description");
      doc = optional_value_from_json lib Kind.string get_text interface (codes "doc");
      mappings = mappings;
    })
