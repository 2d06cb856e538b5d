-- ===== src/DeviceMqtt.antt =====
-- src/mqtt/device_mqtt_impl.cpp: the MQTT device, over its introspection and its connection. The
-- methods that end the program (not yet implemented) are left out.
pub mod Preparing
pub mod Publishing
pub mod Delivery
pub mod Encoding
pub mod Interfaces
pub mod Lifecycle
pub mod Keeping
pub mod Accounts
pub mod Invariant
pub mod Ordering
pub mod Serving
pub mod RunTests
pub mod ServingTests
pub mod Tests
use astarte_device_sdk_cpp.Base.{
  ℕ, Bool, true, false, not, Option, none, some, List, [], ◌∷◌, Text, codes, length, ◌==◌,
  if◌then◌else◌, Result, ok, err, ◌>>=◌, ◌>>◌, reject_if, Error, Attempt, exception, returns,
}
use astarte_device_sdk_cpp.Base.Int.{ℤ}
use astarte_device_sdk_cpp.Data.{Doubles, Data}
use astarte_device_sdk_cpp.Json.{JsonLibrary}
use astarte_device_sdk_cpp.Interface.{Interface, validate_individual, validate_object, get_qos}
use astarte_device_sdk_cpp.Interface.Parse.{try_from_json}
use astarte_device_sdk_cpp.Introspection.{Introspection, checked_insert, get}
use astarte_device_sdk_cpp.Persistence.{FileSystem, Files}
use astarte_device_sdk_cpp.Serialize.{
  JsonBuilder, serialize_astarte_individual, serialize_astarte_object,
}
use astarte_device_sdk_cpp.Session.{Session, Client, Identity}
use astarte_device_sdk_cpp.Connection.{Waits, send}
use astarte_device_sdk_cpp.Connection

pub record DeviceMqtt : Type 0 where
  pub introspection : Introspection
  pub session : Session

abbrev pub is_connected : DeviceMqtt → Bool
is_connected device = device.session.connected

-- An interface that was read goes to `checked_insert`; an error is returned.
unfoldable pub insert_read : DeviceMqtt → Result Interface → DeviceMqtt × Result (Unit {0})
insert_read device (err e) = (device, err e)
insert_read device (ok interface) =
    let (introspection, outcome) = checked_insert device.introspection interface in
    (record device { introspection = introspection }, outcome)

module _ (lib : JsonLibrary) (parse : Text → Option lib.Json) where
  -- The interface that a text describes; `parse` has no result where it throws.
  unfoldable pub interface_from_str : Text → Result Interface
  interface_from_str interface_str = elim (parse interface_str) [
    | none ↦ err Error.json_parsing_error
    | some interface_json ↦ try_from_json lib interface_json
  ]

  unfoldable pub add_interface_from_str : DeviceMqtt → Text → DeviceMqtt × Result (Unit {0})
  add_interface_from_str device interface_str =
      insert_read device (interface_from_str interface_str)

  -- The text of a file that can be opened.
  unfoldable pub add_interface_from_file :
      FileSystem → Files → DeviceMqtt → Text → DeviceMqtt × Result (Unit {0})
  add_interface_from_file fs files device json_file = elim (files json_file) [
    | none ↦ (device, err Error.file_open_error)
    | some interface_str ↦
        if fs.opens_to_read json_file
        then add_interface_from_str device interface_str
        else (device, err Error.file_open_error)
  ]

module _ {d : Doubles} (builder : JsonBuilder d) where
  open d use {Double}
  open builder use {Json, null, is_empty, dump, to_bson}

  -- The bytes of a document, whose text is made first for the log, at any level of it.
  unfoldable pub encode : Json → Option Text
  encode bson = elim (dump bson) [ none ↦ none | some text ↦ to_bson bson ]

  abbrev pub with_bytes : ℕ → Option Text → Attempt (ℕ × Text)
  with_bytes qos none = exception
  with_bytes qos (some bytes) = returns (ok (qos, bytes))

  -- An error of the checks is returned; otherwise the document is encoded.
  unfoldable pub encoded : Result (ℕ × Json) → Attempt (ℕ × Text)
  encoded (err e) = returns (err e)
  encoded (ok (qos, bson)) = with_bytes qos (encode bson)

  -- The checks of `send_individual` before the connection is used: the quality of service and the
  -- document to publish.
  unfoldable pub check_individual :
      DeviceMqtt → Text → Text → Data Double → Option ℤ → Result (ℕ × Json)
  check_individual device interface_name path data' timestamp = do
    reject_if (not (is_connected device)) Error.mqtt_error
    interface ← get device.introspection interface_name
    validate_individual d interface path data' timestamp
    qos ← get_qos interface path
    let bson = serialize_astarte_individual builder null (codes "v") data' timestamp
    reject_if (is_empty bson) Error.data_serialization_error
    ok (qos, bson)

  -- The checks of `send_object`.
  unfoldable pub check_object :
      DeviceMqtt → Text → Text → List (Text × Data Double) → Option ℤ → Result (ℕ × Json)
  check_object device interface_name path object timestamp = do
    reject_if (not (is_connected device)) Error.mqtt_error
    interface ← get device.introspection interface_name
    reject_if (not (length interface.mappings == length object)) Error.interface_validation_error
    validate_object d interface path object timestamp
    qos ← get_qos interface path
    let bson = serialize_astarte_object builder null object timestamp
    reject_if (is_empty bson) Error.data_serialization_error
    ok (qos, bson)

  -- What the two methods do before the connection is used.
  unfoldable pub prepare_individual :
      DeviceMqtt → Text → Text → Data Double → Option ℤ → Attempt (ℕ × Text)
  prepare_individual device interface_name path data' timestamp =
      encoded (check_individual device interface_name path data' timestamp)

  unfoldable pub prepare_object :
      DeviceMqtt → Text → Text → List (Text × Data Double) → Option ℤ → Attempt (ℕ × Text)
  prepare_object device interface_name path object timestamp =
      encoded (check_object device interface_name path object timestamp)

module _ (client : Client) (waits : Waits) (self : Identity) where
  -- `return connection_.send(…)`, or the error of the checks, or the exception.
  unfoldable pub deliver :
      DeviceMqtt → Text → Text → Attempt (ℕ × Text) → DeviceMqtt × Attempt (Unit {0})
  deliver device interface_name path exception = (device, exception)
  deliver device interface_name path (returns (err e)) = (device, returns (err e))
  deliver device interface_name path (returns (ok (qos, bytes))) =
      let (session, outcome) =
        send client waits self device.session interface_name path qos bytes in
      (record device { session = session }, returns outcome)

  module _ {d : Doubles} (builder : JsonBuilder d) where
    unfoldable pub send_individual :
        DeviceMqtt → Text → Text → Data d.Double → Option ℤ → DeviceMqtt × Attempt (Unit {0})
    send_individual device interface_name path data' timestamp =
        deliver device interface_name path
          (prepare_individual builder device interface_name path data' timestamp)

    unfoldable pub send_object :
        DeviceMqtt
        → Text
        → Text
        → List (Text × Data d.Double)
        → Option ℤ
        → DeviceMqtt × Attempt (Unit {0})
    send_object device interface_name path object timestamp =
        deliver device interface_name path
          (prepare_object builder device interface_name path object timestamp)

unfoldable pub disconnect : Client → Waits → DeviceMqtt → DeviceMqtt × Result (Unit {0})
disconnect client waits device =
    if not (is_connected device)
    then (device, ok tt)
    else let (session, outcome) = Connection.disconnect client waits device.session in
      (record device { session = session }, outcome)
