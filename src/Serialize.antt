-- ===== src/Serialize.antt =====
-- src/mqtt/serialize.cpp: the BSON document of a datum. The JSON library that builds and prints the
-- document is a parameter; a time point is its count of nanoseconds.
use astarte_device_sdk_cpp.Base.{
  ℕ, zero, suc, ◌/◌, Bool, Option, none, some, List, [], ◌∷◌, map, Text, codes,
}
use astarte_device_sdk_cpp.Base.Int.{ℤ, pos, negsuc}
use astarte_device_sdk_cpp.Data.{
  Doubles, Data, int32, int64, float64, flag, text, blob, time_point, int32s, int64s, float64s,
  flags, texts, blobs, time_points,
}

-- What the code uses of `nlohmann::json` to build a document: the values (a vector becomes an
-- array), `emplace`, which makes an object of a null value, `empty` and `to_bson`.
pub record JsonBuilder (d : Doubles) : Type 1 where
  pub Json : Type 0
  pub null : Json
  pub from_int : ℤ → Json
  pub from_double : d.Double → Json
  pub from_bool : Bool → Json
  pub from_text : Text → Json
  pub binary : List ℕ → Json
  pub array : List Json → Json
  pub emplace : Json → Text → Json → Json
  pub is_empty : Json → Bool
  -- Nothing where they throw.
  pub dump : Json → Option Text
  pub to_bson : Json → Option (List ℕ)

-- `duration_cast<milliseconds>`, which rounds towards zero.
unfoldable pub to_millis : ℤ → ℤ
to_millis (pos n) = pos (n / 1000000)
to_millis (negsuc n) = negate (suc n / 1000000)
  where
    negate : ℕ → ℤ
    negate zero = pos zero
    negate (suc k) = negsuc k

module _ {d : Doubles} (lib : JsonBuilder d) where
  open d use {Double}
  open lib use {Json, null, from_int, from_double, from_bool, from_text, binary, array, emplace}

  unfoldable pub value_to_json : Data Double → Json
  value_to_json (blob bytes) = binary bytes
  value_to_json (time_point t) = from_int (to_millis t)
  value_to_json (blobs bs) = array (map binary bs)
  value_to_json (time_points ts) = array (map (λ t. from_int (to_millis t)) ts)
  value_to_json (int32 n) = from_int n
  value_to_json (int64 n) = from_int n
  value_to_json (float64 x) = from_double x
  value_to_json (flag b) = from_bool b
  value_to_json (text s) = from_text s
  value_to_json (int32s ns) = array (map from_int ns)
  value_to_json (int64s ns) = array (map from_int ns)
  value_to_json (float64s xs) = array (map from_double xs)
  value_to_json (flags bs) = array (map from_bool bs)
  value_to_json (texts ss) = array (map from_text ss)

  abbrev pub with_timestamp : Json → Option ℤ → Json
  with_timestamp bson none = bson
  with_timestamp bson (some t) = emplace bson (codes "t") (from_int (to_millis t))

  unfoldable pub serialize_astarte_individual : Json → Text → Data Double → Option ℤ → Json
  serialize_astarte_individual bson key data' timestamp =
      with_timestamp (emplace bson key (value_to_json data')) timestamp

  -- The entries of an object, one after the other.
  unfoldable pub serialize_entries : Json → List (Text × Data Double) → Json
  serialize_entries inner_bson [] = inner_bson
  serialize_entries inner_bson ((endpoint_path, data') ∷ object) =
      serialize_entries (serialize_astarte_individual inner_bson endpoint_path data' none) object

  unfoldable pub serialize_astarte_object : Json → List (Text × Data Double) → Option ℤ → Json
  serialize_astarte_object bson object timestamp =
      with_timestamp (emplace bson (codes "v") (serialize_entries null object)) timestamp
