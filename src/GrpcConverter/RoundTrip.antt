-- ===== src/GrpcConverter/RoundTrip.antt =====
-- What is sent to the message hub is read back.
use astarte_device_sdk_cpp.Base.{
  ◌≡◌, refl, ap, ◌∙◌, Option, none, some, List, [], ◌∷◌, map, Text, ok,
}
use astarte_device_sdk_cpp.Base.Int.{ℤ}
use astarte_device_sdk_cpp.Data.{Data, time_point, time_points}
use astarte_device_sdk_cpp.GrpcConverter.{
  to_timestamp, from_timestamp, DataCase, AstarteDataClass, field_of, data_of, Received, Content,
  individual, object, property, to_grpc, from_grpc, entries_to_grpc, entries_from_grpc,
  property_to_grpc, property_from_grpc, Parts, content_from_grpc, message_from_grpc,
}
use astarte_device_sdk_cpp.GrpcConverter.Timestamps.{from_timestamp-to_timestamp}

timestamps_back : (ts : List ℤ) → map from_timestamp (map to_timestamp ts) ≡ ts
timestamps_back [] = refl
timestamps_back (t ∷ ts) = rw (from_timestamp-to_timestamp t, timestamps_back ts)

data_of-field_of : {D : Type 0} → (value : Data D) → data_of (field_of value) ≡ ok value
unfolding data_of field_of
data_of-field_of (time_point t) = ap (λ s. ok (time_point s)) (from_timestamp-to_timestamp t)
data_of-field_of (time_points ts) = ap (λ s. ok (time_points s)) (timestamps_back ts)
data_of-field_of _ = refl

module _ {D : Type 0} (grpc : AstarteDataClass D) where
  open grpc use {set, astarte_data_case}

  -- A field that was set is the one that is read.
  abbrev pub ReadsBack : Type 0
  ReadsBack = (field : DataCase D) → astarte_data_case (set field) ≡ field

  -- Each value is read back from its message, provided that a field that was set is read back.
  pub from_grpc-to_grpc :
      (value : Data D) → ReadsBack → from_grpc grpc (to_grpc grpc value) ≡ ok value
  unfolding from_grpc to_grpc
  from_grpc-to_grpc value law = ap data_of (law (field_of value)) ∙ data_of-field_of value

  -- So is each object, entry by entry.
  pub entries_from_grpc-entries_to_grpc :
      (entries : List (Text × Data D))
      → ReadsBack
      → entries_from_grpc grpc (entries_to_grpc grpc entries) ≡ ok entries
  unfolding entries_from_grpc entries_to_grpc
  entries_from_grpc-entries_to_grpc [] law = refl
  entries_from_grpc-entries_to_grpc ((path, value) ∷ entries) law =
      rw (from_grpc-to_grpc value law, entries_from_grpc-entries_to_grpc entries law)

  property_back :
      (value : Option (Data D))
      → ReadsBack
      → property_from_grpc grpc (property_to_grpc grpc value) ≡ ok value
  unfolding property_from_grpc property_to_grpc
  property_back none law = refl
  property_back (some value) law = rw (from_grpc-to_grpc value law)

  -- The parts of a message that carries a content as the message hub sends it.
  unfoldable pub parts_of : Content D → Parts grpc
  parts_of (individual value) = record {
    datastream_individual = some (to_grpc grpc value);
    datastream_object = none;
    property_individual = none;
  }
  parts_of (object entries) = record {
    datastream_individual = none;
    datastream_object = some (entries_to_grpc grpc entries);
    property_individual = none;
  }
  parts_of (property value) = record {
    datastream_individual = none;
    datastream_object = none;
    property_individual = some (property_to_grpc grpc value);
  }

  content_back :
      (content : Content D) → ReadsBack → content_from_grpc grpc (parts_of content) ≡ ok content
  unfolding content_from_grpc parts_of
  content_back (individual value) law = rw (from_grpc-to_grpc value law)
  content_back (object entries) law = rw (entries_from_grpc-entries_to_grpc entries law)
  content_back (property value) law = rw (property_back value law)

  -- A message with the parts of an individual, an object or a property, a property that is unset
  -- included, is read as that content under the same interface and path, provided that a field that
  -- was set is read back.
  pub message_from_grpc-parts_of :
      (message : Received (Content D))
      → ReadsBack
      → message_from_grpc grpc (record {
        interface_name = message.interface_name;
        path = message.path;
        content = parts_of message.content;
      })
        ≡ ok message
  unfolding message_from_grpc
  message_from_grpc-parts_of message law = rw (content_back message.content law)
