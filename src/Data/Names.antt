-- ===== src/Data/Names.antt =====
-- The names of types and ownerships: what interface files write (`astarte_type_from_str`,
-- `ownership_from_str`) and what the formatters print.
use astarte_device_sdk_cpp.Base.{
  ℕ, ◌+◌, ◌≡◌, ◌↔◌, refl, ◌&&◌, Text, codes, text_eq, text_eq_iff, leb, if◌then◌else◌, map, Result,
  ok, err, Error, arith,
}
use astarte_device_sdk_cpp.Data.{AstarteType, Ownership}

unfoldable pub astarte_type_from_str : Text → Result AstarteType
astarte_type_from_str s =
    if text_eq s (codes "binaryblob")
    then ok AstarteType.binary_blob
    else if text_eq s (codes "boolean")
    then ok AstarteType.boolean
    else if text_eq s (codes "datetime")
    then ok AstarteType.datetime
    else if text_eq s (codes "double")
    then ok AstarteType.double
    else if text_eq s (codes "integer")
    then ok AstarteType.integer
    else if text_eq s (codes "longinteger")
    then ok AstarteType.long_integer
    else if text_eq s (codes "string")
    then ok AstarteType.string
    else if text_eq s (codes "binaryblobarray")
    then ok AstarteType.binary_blob_array
    else if text_eq s (codes "booleanarray")
    then ok AstarteType.boolean_array
    else if text_eq s (codes "datetimearray")
    then ok AstarteType.datetime_array
    else if text_eq s (codes "doublearray")
    then ok AstarteType.double_array
    else if text_eq s (codes "integerarray")
    then ok AstarteType.integer_array
    else if text_eq s (codes "longintegerarray")
    then ok AstarteType.long_integer_array
    else if text_eq s (codes "stringarray")
    then ok AstarteType.string_array
    else err Error.invalid_astarte_type

-- The formatter's names.
pub format_type : AstarteType → Text
format_type AstarteType.binary_blob = codes "BinaryBlob"
format_type AstarteType.boolean = codes "Boolean"
format_type AstarteType.datetime = codes "Datetime"
format_type AstarteType.double = codes "Double"
format_type AstarteType.integer = codes "Integer"
format_type AstarteType.long_integer = codes "LongInteger"
format_type AstarteType.string = codes "String"
format_type AstarteType.binary_blob_array = codes "BinaryBlobArray"
format_type AstarteType.boolean_array = codes "BooleanArray"
format_type AstarteType.datetime_array = codes "DatetimeArray"
format_type AstarteType.double_array = codes "DoubleArray"
format_type AstarteType.integer_array = codes "IntegerArray"
format_type AstarteType.long_integer_array = codes "LongIntegerArray"
format_type AstarteType.string_array = codes "StringArray"

unfoldable pub ownership_from_str : Text → Result Ownership
ownership_from_str s =
    if text_eq s (codes "device")
    then ok Ownership.device
    else if text_eq s (codes "server")
    then ok Ownership.server
    else err Error.invalid_interface_ownership

pub format_ownership : Ownership → Text
format_ownership Ownership.device = codes "device"
format_ownership Ownership.server = codes "server"

-- An ASCII capital in lower case.
pub to_lower : ℕ → ℕ
to_lower c = if leb b'A' c && leb c b'Z' then c + 32 else c

astarte_type_from_str-format :
    (t : AstarteType) → astarte_type_from_str (map to_lower (format_type t)) ≡ ok t
unfolding astarte_type_from_str format_type to_lower text_eq
astarte_type_from_str-format AstarteType.binary_blob = refl
astarte_type_from_str-format _ = refl

astarte_type_from_str_only :
    (s : Text) (t : AstarteType) → astarte_type_from_str s ≡ ok t → s ≡ map to_lower (format_type t)
unfolding astarte_type_from_str format_type to_lower
astarte_type_from_str_only s t h = ground (
  arith,
  text_eq_iff s (codes "binaryblob"),
  text_eq_iff s (codes "boolean"),
  text_eq_iff s (codes "datetime"),
  text_eq_iff s (codes "double"),
  text_eq_iff s (codes "integer"),
  text_eq_iff s (codes "longinteger"),
  text_eq_iff s (codes "string"),
  text_eq_iff s (codes "binaryblobarray"),
  text_eq_iff s (codes "booleanarray"),
  text_eq_iff s (codes "datetimearray"),
  text_eq_iff s (codes "doublearray"),
  text_eq_iff s (codes "integerarray"),
  text_eq_iff s (codes "longintegerarray"),
  text_eq_iff s (codes "stringarray"),
)

-- A text of an interface file is read as a type exactly when it is that type's printed name in
-- lower case.
pub astarte_type_from_str_iff :
    (s : Text) (t : AstarteType)
    → (astarte_type_from_str s ≡ ok t) ↔ (s ≡ map to_lower (format_type t))
astarte_type_from_str_iff s t =
    (astarte_type_from_str_only s t, λ e. rw e (astarte_type_from_str-format t))

-- A text is read as an ownership exactly when it is that ownership's printed name.
pub ownership_from_str_iff :
    (s : Text) (o : Ownership) → (ownership_from_str s ≡ ok o) ↔ (s ≡ format_ownership o)
unfolding ownership_from_str format_ownership
ownership_from_str_iff s Ownership.device =
    ground (arith, text_eq_iff s (codes "device"), text_eq_iff s (codes "server"))
ownership_from_str_iff s _ =
    ground (arith, text_eq_iff s (codes "device"), text_eq_iff s (codes "server"))
