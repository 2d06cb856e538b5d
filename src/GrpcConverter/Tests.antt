-- ===== src/GrpcConverter/Tests.antt =====
-- A message that is its field, and a time point before the epoch.
use astarte_device_sdk_cpp.Base.{ℕ, ◌≡◌, refl, none, codes, ok}
use astarte_device_sdk_cpp.Base.Int.{pos, negsuc, ◌≤ℤ◌, ◌-ℤ◌}
use astarte_device_sdk_cpp.GrpcConverter.{
  to_timestamp, whole_seconds, in_nanoseconds, DataCase, AstarteDataClass, Received, Content,
  property, message_from_grpc,
}
use astarte_device_sdk_cpp.GrpcConverter.Timestamps.{to_timestamp-nanos}
use astarte_device_sdk_cpp.GrpcConverter.RoundTrip.{parts_of, message_from_grpc-parts_of}

abbrev fields : AstarteDataClass ℕ
fields = record { GrpcAstarteData = DataCase ℕ; set = λ f. f; astarte_data_case = λ f. f }

abbrev unset : Received (Content ℕ)
unset = record { interface_name = codes "a.B"; path = codes "/v"; content = property none }

-- One nanosecond before the epoch.
before_epoch : to_timestamp (negsuc 0) ≡ record { seconds = pos 0; nanos = negsuc 0 }
unfolding to_timestamp whole_seconds in_nanoseconds ◌-ℤ◌
before_epoch = refl

to_timestamp-nanos_example :
    (pos 0 ≤ℤ (to_timestamp (pos 1500000000)).nanos)
    × ((to_timestamp (pos 1500000000)).nanos ≤ℤ pos 999999999)
    × ((to_timestamp (negsuc 1500000000)).nanos ≤ℤ pos 0)
    × (negsuc 999999998 ≤ℤ (to_timestamp (negsuc 1500000000)).nanos)
to_timestamp-nanos_example = to_timestamp-nanos 1500000000

message_from_grpc-parts_of_example :
    message_from_grpc fields (record {
      interface_name = codes "a.B";
      path = codes "/v";
      content = parts_of fields (property none);
    })
    ≡ ok unset
message_from_grpc-parts_of_example = message_from_grpc-parts_of fields unset (λ f. refl)
