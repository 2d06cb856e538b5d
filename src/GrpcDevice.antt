-- ===== src/GrpcDevice.antt =====
-- src/grpc/device_grpc_impl.cpp: the state of the gRPC device and what the application does with
-- it. The generated stub is a parameter: what it answers to a request, given the requests before
-- it. `regex_search` for the name of an interface in its JSON text is a parameter too. The set-up of
-- the channel is left out.
pub mod Thread
pub mod Runs
pub mod Queueing
pub mod Sending
pub mod Querying
pub mod Stuck
pub mod Reconnection
pub mod Stopping
pub mod Tests
use astarte_device_sdk_cpp.Base.{
  ℕ, Bool, true, false, not, ◌||◌, Option, none, some, List, [], ◌∷◌, ◌++◌, Text, if◌then◌else◌,
  Result, ok, err, ◌>>=◌, Error,
}
use astarte_device_sdk_cpp.Base.Int.{ℤ, pos}
use astarte_device_sdk_cpp.Data.{Ownership, Data}
use astarte_device_sdk_cpp.Backoff.{Backoff}
use astarte_device_sdk_cpp.GrpcConverter.{
  Timestamp, AstarteDataClass, Received, Content, individual_to_grpc, entries_to_grpc,
  object_to_grpc, property_to_grpc, property_from_grpc, Parts,
}
use astarte_device_sdk_cpp.GrpcConverter.Properties.{
  GrpcOwnership, ownership_to_grpc, StoredProperty, stored_properties_from_grpc,
}
use astarte_device_sdk_cpp.Persistence.{FileSystem, Files}
use astarte_device_sdk_cpp.SharedQueue.{pop}

-- Where the connection thread stands: there is none; at the test of the loop; waiting for the
-- metadata of an attachment; reading events; the stream has ended; the attempt has returned;
-- asleep; or it has returned.
pub data Stage : Type 0 where
  no_thread loop_head attaching reading finishing attempt_over sleeping returned : Stage

-- What is asked of the message hub.
pub data Request {D : Type 0} (grpc : AstarteDataClass D) : Type 0 where
  attach : (interfaces_json : List Text) → Request grpc
  add_interfaces : (json : Text) → Request grpc
  remove_interfaces : (name : Text) → Request grpc
  detach : Request grpc
  send : (message : Received (Parts grpc)) (timestamp : Option Timestamp) → Request grpc
  all_properties : (filter : Option GrpcOwnership) → Request grpc
  interface_properties : (name : Text) → Request grpc
  one_property : (interface_name path : Text) → Request grpc

-- The answers: a status, whose absence is `ok()`, and the response of the queries.
pub record Stub {D : Type 0} (grpc : AstarteDataClass D) : Type 0 where
  pub status : List (Request grpc) → Request grpc → Option ℕ
  pub stored :
      List (Request grpc) → Request grpc → List (StoredProperty GrpcOwnership grpc.GrpcAstarteData)
  pub stored_property : List (Request grpc) → Request grpc → Option grpc.GrpcAstarteData

-- The fields of the class, with the stage of `connection_thread_`, the state of its backoff and the
-- requests so far (oldest first).
pub record DeviceGrpc {D : Type 0} (grpc : AstarteDataClass D) : Type 0 where
  pub interfaces_bins : List Text
  pub connection_thread : Stage
  pub connected : Bool
  pub stop_requested : Bool
  pub grpc_stream_error : Bool
  pub rcv_queue : List (Received (Content D))
  pub backoff : Backoff
  pub requests : List (Request grpc)

-- A fresh generator of `ExponentialBackoff::create(2s, 1min)`.
abbrev pub initial_backoff : Backoff
initial_backoff = record { mul_coeff = 2000; cutoff_coeff = 60000; prev_delay = 0 }

abbrev pub has_thread : Stage → Bool
has_thread no_thread = false
has_thread _ = true

abbrev pub outcome_of : Option ℕ → Result (Unit {0})
outcome_of none = ok tt
outcome_of (some code) = err Error.grpc_lib_error

module _ {D : Type 0} {grpc : AstarteDataClass D} where
  abbrev pub log : Request grpc → DeviceGrpc grpc → DeviceGrpc grpc
  log r device = record device { requests = device.requests ++ r ∷ [] }

  unfoldable pub connect : DeviceGrpc grpc → DeviceGrpc grpc × Result (Unit {0})
  connect device =
      if has_thread device.connection_thread then (device, err Error.operation_refused) else (
        record device {
          connection_thread = loop_head;
          stop_requested = false;
          backoff = initial_backoff;
        },
        ok tt,
      )

  unfoldable pub poll_incoming : DeviceGrpc grpc → DeviceGrpc grpc × Option (Received (Content D))
  poll_incoming device =
      let (queue, message) = pop device.rcv_queue in (record device { rcv_queue = queue }, message)

  module _ (stub : Stub grpc) where
    -- One call of the stub whose response is empty.
    unfoldable pub ask : Request grpc → DeviceGrpc grpc → DeviceGrpc grpc × Result (Unit {0})
    ask r device = (log r device, outcome_of (stub.status device.requests r))

    -- The new interfaces, if the message hub has accepted them.
    abbrev pub replace_bins :
        List Text → DeviceGrpc grpc × Result (Unit {0}) → DeviceGrpc grpc × Result (Unit {0})
    replace_bins bins (asked, ok _) = (record asked { interfaces_bins = bins }, ok tt)
    replace_bins bins (asked, err e) = (asked, err e)

    unfoldable pub add_interface_from_str :
        DeviceGrpc grpc → Text → DeviceGrpc grpc × Result (Unit {0})
    add_interface_from_str device json =
        let bins = device.interfaces_bins ++ json ∷ [] in
        if not device.connected
        then (record device { interfaces_bins = bins }, ok tt)
        else replace_bins bins (ask (add_interfaces json) device)

    -- The text of a file that can be opened.
    unfoldable pub add_interface_from_file :
        FileSystem → Files → DeviceGrpc grpc → Text → DeviceGrpc grpc × Result (Unit {0})
    add_interface_from_file fs files device json_file = elim (files json_file) [
      | none ↦ (device, err Error.file_open_error)
      | some interface_json ↦
          if fs.opens_to_read json_file
          then add_interface_from_str device interface_json
          else (device, err Error.file_open_error)
    ]

    -- The interfaces without the first that the pattern finds, if it finds one.
    abbrev pub erase_first : (Text → Bool) → List Text → Option (List Text)
    erase_first found [] = none
    erase_first found (interface_json ∷ bins) =
        if found interface_json then some bins else elim (erase_first found bins) [
          | none ↦ none
          | some rest ↦ some (interface_json ∷ rest)
        ]

    -- `names json name` is the search in the JSON text for the name.
    unfoldable pub remove_interface :
        (Text → Text → Bool) → DeviceGrpc grpc → Text → DeviceGrpc grpc × Result (Unit {0})
    remove_interface names device interface_name =
        elim (erase_first (λ json. names json interface_name) device.interfaces_bins) [
          | none ↦ (device, ok tt)
          | some bins ↦
              if not device.connected
              then (record device { interfaces_bins = bins }, ok tt)
              else replace_bins bins (ask (remove_interfaces interface_name) device)
        ]

    -- The stop is requested and the node detached; `join` follows when the thread has returned.
    unfoldable pub disconnect : DeviceGrpc grpc → DeviceGrpc grpc × Result (Unit {0})
    disconnect device =
        let stopped = record device { stop_requested = true } in
        if not (device.connected || device.grpc_stream_error)
        then (stopped, ok tt)
        else let (asked, outcome) = ask detach stopped in
          (record asked { grpc_stream_error = false }, outcome)

    -- What the four methods that send have in common.
    unfoldable pub send_message :
        DeviceGrpc grpc
        → Received (Parts grpc)
        → Option Timestamp
        → DeviceGrpc grpc × Result (Unit {0})
    send_message device message timestamp =
        if not device.connected
        then (device, err Error.operation_refused)
        else ask (send message timestamp) device

    unfoldable pub send_individual :
        DeviceGrpc grpc → Text → Text → Data D → Option ℤ → DeviceGrpc grpc × Result (Unit {0})
    send_individual device interface_name path data' timestamp =
        let (value, grpc_timestamp) = individual_to_grpc grpc data' timestamp in
        send_message device
          (record {
            interface_name = interface_name;
            path = path;
            content = record {
              datastream_individual = some value;
              datastream_object = none;
              property_individual = none;
            };
          })
          grpc_timestamp

    unfoldable pub send_object :
        DeviceGrpc grpc
        → Text
        → Text
        → List (Text × Data D)
        → Option ℤ
        → DeviceGrpc grpc × Result (Unit {0})
    send_object device interface_name path object timestamp =
        let (entries, grpc_timestamp) = object_to_grpc grpc object timestamp in
        send_message device
          (record {
            interface_name = interface_name;
            path = path;
            content = record {
              datastream_individual = none;
              datastream_object = some entries;
              property_individual = none;
            };
          })
          grpc_timestamp

    -- `set_property` of a value, and `unset_property` of none.
    unfoldable pub send_property :
        DeviceGrpc grpc → Text → Text → Option (Data D) → DeviceGrpc grpc × Result (Unit {0})
    send_property device interface_name path opt_data =
        send_message device
          (record {
            interface_name = interface_name;
            path = path;
            content = record {
              datastream_individual = none;
              datastream_object = none;
              property_individual = some (property_to_grpc grpc opt_data);
            };
          })
          none

    abbrev pub set_property :
        DeviceGrpc grpc → Text → Text → Data D → DeviceGrpc grpc × Result (Unit {0})
    set_property device interface_name path data' =
        send_property device interface_name path (some data')

    abbrev pub unset_property : DeviceGrpc grpc → Text → Text → DeviceGrpc grpc × Result (Unit {0})
    unset_property device interface_name path = send_property device interface_name path none

    -- A query: refused when disconnected, an error of the library for a bad status, and otherwise
    -- what `read` makes of the response.
    abbrev pub query {ℓ} :
        {R : Type ℓ} → Request grpc → Result R → DeviceGrpc grpc → DeviceGrpc grpc × Result R
    query r read device = if not device.connected then (device, err Error.operation_refused) else (
      log r device,
      elim (stub.status device.requests r) [ none ↦ read | some code ↦ err Error.grpc_lib_error ],
    )

    abbrev pub filter_of : Option Ownership → Option GrpcOwnership
    filter_of none = none
    filter_of (some ownership) = some (ownership_to_grpc ownership)

    unfoldable pub get_all_properties :
        DeviceGrpc grpc
        → Option Ownership
        → DeviceGrpc grpc × Result (List (StoredProperty Ownership (Data D)))
    get_all_properties device ownership =
        let r = all_properties (filter_of ownership) in
        query r (stored_properties_from_grpc grpc (stub.stored device.requests r)) device

    unfoldable pub get_properties :
        DeviceGrpc grpc → Text → DeviceGrpc grpc × Result (List (StoredProperty Ownership (Data D)))
    get_properties device interface_name =
        let r = interface_properties interface_name in
        query r (stored_properties_from_grpc grpc (stub.stored device.requests r)) device

    unfoldable pub get_property :
        DeviceGrpc grpc → Text → Text → DeviceGrpc grpc × Result (Option (Data D))
    get_property device interface_name path =
        let r = one_property interface_name path in
        query r (property_from_grpc grpc (stub.stored_property device.requests r)) device
