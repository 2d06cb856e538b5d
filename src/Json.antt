-- ===== src/Json.antt =====
-- private/mqtt/helpers.hpp: how fields are taken from a JSON object. The JSON library is a
-- parameter: a type of values, the kind that `type()` tells, `find` (which finds nothing in a value
-- that is no object), and what the code reads from a value after it has checked the kind.
use astarte_device_sdk_cpp.Base.{
  Bool, true, false, ◌&&◌, ◌||◌, Option, none, some, List, Text, if◌then◌else◌, Result, ok, err,
  Error,
}
use astarte_device_sdk_cpp.Base.Int.{ℤ}

-- `json::value_t`.
pub data Kind : Type 0 where
  null object array string boolean number_integer number_unsigned number_float binary : Kind
  discarded : Kind

abbrev pub same_kind : Kind → Kind → Bool
same_kind Kind.null Kind.null = true
same_kind Kind.object Kind.object = true
same_kind Kind.array Kind.array = true
same_kind Kind.string Kind.string = true
same_kind Kind.boolean Kind.boolean = true
same_kind Kind.number_integer Kind.number_integer = true
same_kind Kind.number_unsigned Kind.number_unsigned = true
same_kind Kind.number_float Kind.number_float = true
same_kind Kind.binary Kind.binary = true
same_kind Kind.discarded Kind.discarded = true
same_kind _ _ = false

pub record JsonLibrary : Type 1 where
  pub Json : Type 0
  pub kind : Json → Kind
  pub find : Json → Text → Option Json
  pub get_text : Json → Text
  -- `get<int64_t>()`, also of an unsigned number.
  pub get_int64 : Json → ℤ
  pub get_bool : Json → Bool
  pub elements : Json → List Json

-- The kind that is expected, or an unsigned number where an integer is.
abbrev pub type_match : Kind → Kind → Bool
type_match expected found =
    same_kind found expected
    || (same_kind expected Kind.number_integer && same_kind found Kind.number_unsigned)

module _ (lib : JsonLibrary) where
  open lib use {Json, kind, find}

  unfoldable pub get_field : Json → Text → Kind → Result Json
  get_field interface key expected_type = elim (find interface key) [
    | none ↦ err Error.interface_validation_error
    | some field ↦
        if type_match expected_type (kind field)
        then ok field
        else err Error.interface_validation_error
  ]

  -- `optional_value_from_json<T>`: `expected` is `get_json_type<T>()` and `get` is `get<T>()`.
  unfoldable pub optional_value_from_json {ℓ} :
      {T : Type ℓ} → Kind → (Json → T) → Json → Text → Option T
  optional_value_from_json expected get interface key = elim (find interface key) [
    | none ↦ none
    | some field ↦
        if same_kind (kind field) Kind.null
        then none
        else if type_match expected (kind field)
        then some (get field)
        else none
  ]
