-- ===== src/GrpcConverter.antt =====
-- src/grpc/grpc_converter.cpp: Astarte data to and from the messages of the message hub. The
-- generated class `AstarteData` is a parameter; of the other messages the model has what the code
-- reads from them or writes to them. A time point is its count of nanoseconds, and the casts to 64
-- and 32 bits keep the numbers that they are given.
pub mod Properties
pub mod Timestamps
pub mod RoundTrip
pub mod Tests
use astarte_device_sdk_cpp.Base.{
  ℕ, zero, suc, ◌+◌, ◌-◌, ◌*◌, ◌/◌, Bool, Option, none, some, List, [], ◌∷◌, map, Text, Result, ok,
  err, ◌>>=◌, Error,
}
use astarte_device_sdk_cpp.Base.Int.{ℤ, pos, negsuc, ◌+ℤ◌, ◌-ℤ◌}
use astarte_device_sdk_cpp.Data.{
  Ownership, Data, int32, int64, float64, flag, text, blob, time_point, int32s, int64s, float64s,
  flags, texts, blobs, time_points,
}

-- The fields of `google::protobuf::Timestamp`.
pub record Timestamp : Type 0 where
  pub seconds : ℤ
  pub nanos : ℤ

abbrev pub billion : ℕ
billion = 1000000000

-- `duration_cast<seconds>` of nanoseconds rounds towards zero.
unfoldable pub whole_seconds : ℤ → ℤ
whole_seconds (pos n) = pos (n / billion)
whole_seconds (negsuc n) = pos 0 -ℤ pos (suc n / billion)

-- A count of seconds as one of nanoseconds.
unfoldable pub in_nanoseconds : ℤ → ℤ
in_nanoseconds (pos n) = pos (n * billion)
in_nanoseconds (negsuc n) = pos 0 -ℤ pos (suc n * billion)

unfoldable pub to_timestamp : ℤ → Timestamp
to_timestamp t_duration =
    let sec = whole_seconds t_duration in
    record { seconds = sec; nanos = t_duration -ℤ in_nanoseconds sec }

unfoldable pub from_timestamp : Timestamp → ℤ
from_timestamp timestamp = in_nanoseconds timestamp.seconds +ℤ timestamp.nanos

-- What `astarte_data_case` tells of a message, with the field that is then read.
pub data DataCase (D : Type 0) : Type 0 where
  double : D → DataCase D
  integer long_integer : ℤ → DataCase D
  boolean : Bool → DataCase D
  string binary_blob : Text → DataCase D
  date_time : Timestamp → DataCase D
  double_array : List D → DataCase D
  integer_array long_integer_array : List ℤ → DataCase D
  boolean_array : List Bool → DataCase D
  string_array binary_blob_array : List Text → DataCase D
  date_time_array : List Timestamp → DataCase D
  astarte_data_not_set : DataCase D

-- The class: a new message with one field set, and what is read from a message.
pub record AstarteDataClass (D : Type 0) : Type 1 where
  pub GrpcAstarteData : Type 0
  pub set : DataCase D → GrpcAstarteData
  pub astarte_data_case : GrpcAstarteData → DataCase D

-- The field that `GrpcConverterTo` sets.
unfoldable pub field_of : {D : Type 0} → Data D → DataCase D
field_of (int32 n) = integer n
field_of (int64 n) = long_integer n
field_of (float64 x) = double x
field_of (flag b) = boolean b
field_of (text s) = string s
field_of (blob bytes) = binary_blob bytes
field_of (time_point t) = date_time (to_timestamp t)
field_of (int32s ns) = integer_array ns
field_of (int64s ns) = long_integer_array ns
field_of (float64s xs) = double_array xs
field_of (flags bs) = boolean_array bs
field_of (texts ss) = string_array ss
field_of (blobs bs) = binary_blob_array bs
field_of (time_points ts) = date_time_array (map to_timestamp ts)

-- The `switch` of `GrpcConverterFrom`.
unfoldable pub data_of : {D : Type 0} → DataCase D → Result (Data D)
data_of (double x) = ok (float64 x)
data_of (integer n) = ok (int32 n)
data_of (boolean b) = ok (flag b)
data_of (long_integer n) = ok (int64 n)
data_of (string s) = ok (text s)
data_of (binary_blob bytes) = ok (blob bytes)
data_of (date_time timestamp) = ok (time_point (from_timestamp timestamp))
data_of (double_array xs) = ok (float64s xs)
data_of (integer_array ns) = ok (int32s ns)
data_of (boolean_array bs) = ok (flags bs)
data_of (long_integer_array ns) = ok (int64s ns)
data_of (string_array ss) = ok (texts ss)
data_of (binary_blob_array bs) = ok (blobs bs)
data_of (date_time_array timestamps) = ok (time_points (map from_timestamp timestamps))
data_of astarte_data_not_set = err Error.internal_error

-- What a received message carries, without the data of an individual, object or property.
pub record Received (T : Type 0) : Type 0 where
  pub interface_name : Text
  pub path : Text
  pub content : T

-- `std::variant<DatastreamIndividual, DatastreamObject, PropertyIndividual>`.
pub data Content (D : Type 0) : Type 0 where
  individual : Data D → Content D
  object : List (Text × Data D) → Content D
  property : Option (Data D) → Content D

module _ {D : Type 0} (grpc : AstarteDataClass D) where
  open grpc use {GrpcAstarteData, set, astarte_data_case}

  unfoldable pub to_grpc : Data D → GrpcAstarteData
  to_grpc value = set (field_of value)

  unfoldable pub from_grpc : GrpcAstarteData → Result (Data D)
  from_grpc value = data_of (astarte_data_case value)

  -- An individual and its timestamp.
  unfoldable pub individual_to_grpc : Data D → Option ℤ → GrpcAstarteData × Option Timestamp
  individual_to_grpc value none = (to_grpc value, none)
  individual_to_grpc value (some timestamp) = (to_grpc value, some (to_timestamp timestamp))

  -- The entries of an object, in the order of iteration.
  unfoldable pub entries_to_grpc : List (Text × Data D) → List (Text × GrpcAstarteData)
  entries_to_grpc [] = []
  entries_to_grpc ((path, data') ∷ entries) = (path, to_grpc data') ∷ entries_to_grpc entries

  -- An object and its timestamp.
  unfoldable pub object_to_grpc :
      List (Text × Data D) → Option ℤ → List (Text × GrpcAstarteData) × Option Timestamp
  object_to_grpc value none = (entries_to_grpc value, none)
  object_to_grpc value (some timestamp) = (entries_to_grpc value, some (to_timestamp timestamp))

  unfoldable pub entries_from_grpc : List (Text × GrpcAstarteData) → Result (List (Text × Data D))
  entries_from_grpc [] = ok []
  entries_from_grpc ((key, data') ∷ entries) = do
    converted_data ← from_grpc data'
    converted_entries ← entries_from_grpc entries
    ok ((key, converted_data) ∷ converted_entries)

  unfoldable pub property_to_grpc : Option (Data D) → Option GrpcAstarteData
  property_to_grpc none = none
  property_to_grpc (some value) = some (to_grpc value)

  unfoldable pub property_from_grpc : Option GrpcAstarteData → Result (Option (Data D))
  property_from_grpc none = ok none
  property_from_grpc (some value) = do data' ← from_grpc value; ok (some data')

  -- The parts of a message: `has_datastream_individual`, `has_datastream_object` and
  -- `has_property_individual` are read in this order.
  pub record Parts : Type 0 where
    pub datastream_individual : Option GrpcAstarteData
    pub datastream_object : Option (List (Text × GrpcAstarteData))
    pub property_individual : Option (Option GrpcAstarteData)

  unfoldable pub content_from_grpc : Parts → Result (Content D)
  content_from_grpc parts = elim parts.datastream_individual [
    | some value ↦ from_grpc value >>= λ data'. ok (individual data')
    | none ↦ elim parts.datastream_object [
      | some entries ↦ entries_from_grpc entries >>= λ data'. ok (object data')
      | none ↦ elim parts.property_individual [
        | some value ↦ property_from_grpc value >>= λ data'. ok (property data')
        | none ↦ err Error.internal_error
      ]
    ]
  ]

  unfoldable pub message_from_grpc : Received Parts → Result (Received (Content D))
  message_from_grpc message = do
    content ← content_from_grpc message.content
    ok (record { interface_name = message.interface_name; path = message.path; content = content })
