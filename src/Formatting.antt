-- ===== src/Formatting.antt =====
-- The formatters of values, objects, properties and messages: include/astarte_device_sdk/formatter.hpp,
-- data.hpp, object.hpp, property.hpp, stored_property.hpp and msg.hpp, with the two questions of
-- src/msg.cpp. The printing of numbers and of the date in `format_timestamp` is a parameter.
pub mod Interfaces
use astarte_device_sdk_cpp.Base.{
  Bool, true, false, Option, none, some, List, [], ◌∷◌, ◌++◌, Text, codes,
}
use astarte_device_sdk_cpp.Base.Int.{ℤ}
use astarte_device_sdk_cpp.Data.{
  Ownership, Data, int32, int64, float64, flag, text, blob, time_point, int32s, int64s, float64s,
  flags, texts, blobs, time_points,
}
use astarte_device_sdk_cpp.Data.Names.{format_ownership}
use astarte_device_sdk_cpp.Base64.{format_base64}
use astarte_device_sdk_cpp.GrpcConverter.{Received, Content, individual, object, property}
use astarte_device_sdk_cpp.GrpcConverter.Properties.{StoredProperty}

-- "{}" of the numbers, and the date and time between the quotes.
pub record Printing (D : Type 0) : Type 0 where
  pub of_int : ℤ → Text
  pub of_double : D → Text
  pub of_time : ℤ → Text

abbrev pub quoted : Text → Text
quoted s = codes "\"" ++ s ++ codes "\""

abbrev pub format_bool : Bool → Text
format_bool true = codes "true"
format_bool false = codes "false"

-- The elements, with ", " after each but the last.
unfoldable pub format_elements {ℓ} : {T : Type ℓ} → (T → Text) → List T → Text
format_elements format_data [] = []
format_elements format_data (x ∷ []) = format_data x
format_elements format_data (x ∷ y ∷ data') =
    format_data x ++ codes ", " ++ format_elements format_data (y ∷ data')

-- `format_vector`, with `format_data` for the type of the elements.
abbrev pub format_vector {ℓ} : {T : Type ℓ} → (T → Text) → List T → Text
format_vector format_data data' = codes "[" ++ format_elements format_data data' ++ codes "]"

module _ {D : Type 0} (printing : Printing D) where
  open printing use {of_int, of_double, of_time}

  abbrev pub format_timestamp : ℤ → Text
  format_timestamp t = quoted (of_time t)

  unfoldable pub format_value : Data D → Text
  format_value (int32 n) = of_int n
  format_value (int64 n) = of_int n
  format_value (float64 x) = of_double x
  format_value (flag b) = format_bool b
  format_value (text s) = quoted s
  format_value (blob bytes) = format_base64 bytes
  format_value (time_point t) = format_timestamp t
  format_value (int32s ns) = format_vector of_int ns
  format_value (int64s ns) = format_vector of_int ns
  format_value (float64s xs) = format_vector of_double xs
  format_value (flags bs) = format_vector format_bool bs
  format_value (texts ss) = format_vector quoted ss
  format_value (blobs bs) = format_vector format_base64 bs
  format_value (time_points ts) = format_vector format_timestamp ts

  abbrev pub format_entry : Text × Data D → Text
  format_entry (key, value) = quoted key ++ codes ": " ++ format_value value

  unfoldable pub format_object : List (Text × Data D) → Text
  format_object entries = codes "{" ++ format_elements format_entry entries ++ codes "}"

  -- A property that is unset prints nothing.
  abbrev pub format_property : Option (Data D) → Text
  format_property none = []
  format_property (some value) = format_value value

  unfoldable pub format_stored_property : StoredProperty Ownership (Data D) → Text
  format_stored_property prop =
      codes "Interface: "
      ++ prop.interface_name
      ++ codes " v"
      ++ of_int prop.version_major
      ++ codes ", Path: "
      ++ prop.path
      ++ codes ", Ownership: "
      ++ format_ownership prop.ownership
      ++ codes ", Value: "
      ++ format_value prop.value

  -- The part of a message that shows its value, which an unset property has not.
  abbrev pub format_content : Content D → Text
  format_content (individual value) = codes ", value: " ++ format_value value
  format_content (object entries) = codes ", value: " ++ format_object entries
  format_content (property none) = []
  format_content (property (some value)) = codes ", value: " ++ format_property (some value)

  unfoldable pub format_message : Received (Content D) → Text
  format_message msg =
      codes "{interface: "
      ++ msg.interface_name
      ++ codes ", path: "
      ++ msg.path
      ++ format_content msg.content
      ++ codes "}"

-- `Message::is_datastream` and `Message::is_individual`.
abbrev pub content_is_datastream : {D : Type 0} → Content D → Bool
content_is_datastream (individual value) = true
content_is_datastream (object entries) = true
content_is_datastream (property value) = false

abbrev pub content_is_individual : {D : Type 0} → Content D → Bool
content_is_individual (individual value) = true
content_is_individual (object entries) = false
content_is_individual (property value) = true
