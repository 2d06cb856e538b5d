-- ===== src/GrpcDevice/Sending.antt =====
-- The four methods that send, and what the message hub reads from their messages.
use astarte_device_sdk_cpp.Base.{
  ◌≡◌, refl, ap, Bool, true, false, not, if◌then◌else◌, Option, none, some, Text, Result, ok, err,
  Error,
}
use astarte_device_sdk_cpp.Base.Int.{ℤ}
use astarte_device_sdk_cpp.GrpcConverter.{
  Timestamp, to_timestamp, from_timestamp, AstarteDataClass, Received, Content, individual, object,
  property, individual_to_grpc, object_to_grpc, Parts, message_from_grpc,
}
use astarte_device_sdk_cpp.GrpcConverter.Timestamps.{from_timestamp-to_timestamp}
use astarte_device_sdk_cpp.GrpcConverter.RoundTrip.{ReadsBack, parts_of, message_from_grpc-parts_of}
use astarte_device_sdk_cpp.GrpcDevice.{
  send, Stub, DeviceGrpc, ask, outcome_of, log, send_message, send_individual, send_object,
  send_property,
}

-- The timestamp that goes with a content: a property has none.
abbrev pub timestamp_of : {D : Type 0} → Content D → Option ℤ → Option ℤ
timestamp_of (property value) timestamp = none
timestamp_of _ timestamp = timestamp

abbrev pub time_of : Option Timestamp → Option ℤ
time_of none = none
time_of (some timestamp) = some (from_timestamp timestamp)

abbrev grpc_time : Option ℤ → Option Timestamp
grpc_time none = none
grpc_time (some t) = some (to_timestamp t)

time_of-grpc_time : (timestamp : Option ℤ) → time_of (grpc_time timestamp) ≡ timestamp
time_of-grpc_time none = refl
time_of-grpc_time (some t) = ap some (from_timestamp-to_timestamp t)

module _ {D : Type 0} {grpc : AstarteDataClass D} (stub : Stub grpc) where
  -- The method for a content; without a value of a property it is `unset_property`.
  unfoldable pub send_content :
      DeviceGrpc grpc → Text → Text → Content D → Option ℤ → DeviceGrpc grpc × Result (Unit {0})
  send_content device interface_name path (individual value) timestamp =
      send_individual stub device interface_name path value timestamp
  send_content device interface_name path (object entries) timestamp =
      send_object stub device interface_name path entries timestamp
  send_content device interface_name path (property value) timestamp =
      send_property stub device interface_name path value

  -- A device that is not connected refuses, and nothing else happens; otherwise the one request is a
  -- message from which the content is read back, and its status is the outcome.
  unfoldable pub Delivers :
      Bool
      → DeviceGrpc grpc
      → Received (Content D)
      → Option ℤ
      → DeviceGrpc grpc × Result (Unit {0})
      → Type 0
  Delivers false device m timestamp result = result ≡ (device, err Error.operation_refused)
  Delivers true device m timestamp result =
      (message : Received (Parts grpc)) × (time : Option Timestamp) × (message_from_grpc grpc
          message
        ≡ ok m)
      × (time_of time ≡ timestamp)
      × (result ≡ (
        log (send message time) device,
        outcome_of (stub.status device.requests (send message time)),
      ))

  sent : Received (Content D) → Received (Parts grpc)
  sent m = record {
    interface_name = m.interface_name;
    path = m.path;
    content = parts_of grpc m.content;
  }

  send_message-Delivers :
      (device : DeviceGrpc grpc) (name path : Text) (content : Content D) (timestamp : Option ℤ)
      → ReadsBack grpc
      → Delivers device.connected device
          (record { interface_name = name; path = path; content = content })
          timestamp
          (send_message stub device
            (sent (record { interface_name = name; path = path; content = content }))
            (grpc_time timestamp))
  unfolding send_message sent
  send_message-Delivers device name path content timestamp law = at_connected device.connected
    where
      m : Received (Content D)
      m = record { interface_name = name; path = path; content = content }

      at_connected :
          (c : Bool)
          → Delivers c device m timestamp (
              if not c
              then (device, err Error.operation_refused)
              else ask stub (send (sent m) (grpc_time timestamp)) device)
      at_connected false = unfold Delivers in refl
      at_connected true =
          unfold Delivers ask in
          (
            sent m,
            grpc_time timestamp,
            message_from_grpc-parts_of grpc m law,
            time_of-grpc_time timestamp,
            refl,
          )

  -- Sending an individual, an object or a property, the unsetting of a property included: a device
  -- that is not connected refuses and is left as it is; a connected one makes one request more, from
  -- whose message the same interface, path, content and timestamp are read back, and the outcome is
  -- the status that the message hub returns. This holds if a field that was set is read back.
  pub send_content-Delivers :
      (device : DeviceGrpc grpc) (interface_name path : Text) (content : Content D)
      (timestamp : Option ℤ)
      → ReadsBack grpc
      → Delivers device.connected device
          (record { interface_name = interface_name; path = path; content = content })
          (timestamp_of content timestamp)
          (send_content device interface_name path content timestamp)
  unfolding send_content
  send_content-Delivers device name path (individual value) none law =
      unfold send_individual individual_to_grpc sent parts_of in
      send_message-Delivers device name path (individual value) none law
  send_content-Delivers device name path (individual value) (some t) law =
      unfold send_individual individual_to_grpc sent parts_of in
      send_message-Delivers device name path (individual value) (some t) law
  send_content-Delivers device name path (object entries) none law =
      unfold send_object object_to_grpc sent parts_of in
      send_message-Delivers device name path (object entries) none law
  send_content-Delivers device name path (object entries) (some t) law =
      unfold send_object object_to_grpc sent parts_of in
      send_message-Delivers device name path (object entries) (some t) law
  send_content-Delivers device name path (property value) timestamp law =
      unfold send_property sent parts_of in
      send_message-Delivers device name path (property value) none law
