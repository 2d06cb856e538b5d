-- ===== src/DeviceMqtt/Lifecycle.antt =====
-- A whole MQTT device in its surroundings, from `create` of src/mqtt/device_mqtt_impl.cpp on: what the
-- application asks of it and what the MQTT client reports to it are the steps, in any order.
use astarte_device_sdk_cpp.Base.{
  ◌≡◌, Bool, false, Option, some, List, [], Text, Attempt, exception, returns, ok, err,
}
use astarte_device_sdk_cpp.Base.Int.{ℤ}
use astarte_device_sdk_cpp.Data.{Doubles, Data}
use astarte_device_sdk_cpp.Json.{JsonLibrary}
use astarte_device_sdk_cpp.Introspection.{empty}
use astarte_device_sdk_cpp.Serialize.{JsonBuilder}
use astarte_device_sdk_cpp.Session.{
  Session, Client, Identity, on_connected, on_connection_lost, on_setup_success, on_setup_failure,
  on_disconnected,
}
use astarte_device_sdk_cpp.Pairing.{HttpClient, UrlLibrary, PairingJson}
use astarte_device_sdk_cpp.Persistence.{FileSystem}
use astarte_device_sdk_cpp.Config.{Config}
use astarte_device_sdk_cpp.Connection.{Waits}
use astarte_device_sdk_cpp.Connection.Setup.{Created, World, KeyMaker}
use astarte_device_sdk_cpp.Connection.Setup
use astarte_device_sdk_cpp.DeviceMqtt.{
  DeviceMqtt, add_interface_from_str, add_interface_from_file, send_individual, send_object,
  disconnect,
}

-- The libraries and services that a device uses.
pub record Surroundings : Type 1 where
  pub urls : UrlLibrary
  pub numbers : Doubles
  pub lib : JsonLibrary
  pub parse : Text → Option lib.Json
  pub pairing_json : PairingJson lib
  pub builder : JsonBuilder numbers
  pub fs : FileSystem
  pub http : HttpClient
  pub new_key : KeyMaker
  pub client : Client
  pub waits : Waits

-- The device, its connection, and the files and requests to the pairing service.
pub record MqttDevice (urls : UrlLibrary) : Type 0 where
  pub connection : Created urls
  pub device : DeviceMqtt
  pub world : World

abbrev pub new_session : Session
new_session = record { connected = false; session_setup_tokens = []; requests = [] }

module _ {urls : UrlLibrary} where
  abbrev pub self_of : MqttDevice urls → Identity
  self_of m = record { realm = m.connection.cfg.realm; device_id = m.connection.cfg.device_id }

  abbrev pub with_device : MqttDevice urls → DeviceMqtt → MqttDevice urls
  with_device m device = record m { device = device }

  abbrev pub with_session : MqttDevice urls → Session → MqttDevice urls
  with_session m session =
      let device : DeviceMqtt = m.device in
      record m { device = record device { session = session } }

  -- The device of a connection that could be created.
  abbrev pub device_of : World × Attempt (Created urls) → World × Attempt (MqttDevice urls)
  device_of (world, exception) = (world, exception)
  device_of (world, returns (err e)) = (world, returns (err e))
  device_of (world, returns (ok connection)) = (
    world,
    returns (
        ok (record {
          connection = connection;
          device = record { introspection = empty; session = new_session };
          world = world;
        })),
  )

module _ (env : Surroundings) where
  open env use {urls, numbers, lib, parse, pairing_json, builder, fs, http, new_key, client, waits}

  unfoldable pub create : Config → World → World × Attempt (MqttDevice urls)
  create cfg world = device_of (Setup.create fs lib pairing_json http new_key cfg world)

  -- The tokens that the client answers with reach the callbacks; whether its own `connect` ends without
  -- an exception is an argument.
  unfoldable pub connect : Bool → MqttDevice urls → MqttDevice urls × Attempt (Unit {0})
  connect connects m =
      let (world, outcome) =
        Setup.connect fs lib pairing_json http new_key connects m.connection m.world in
      (record m { world = world }, outcome)

  -- The calls of the application, and then the reports of the client. The report of a success waits
  -- while there is no token.
  pub data Step : MqttDevice urls → MqttDevice urls → Type 0 where
    adds :
        (m : MqttDevice urls) (text : Text)
        → Step m (with_device m (add_interface_from_str lib parse m.device text).0)
    adds_file :
        (m : MqttDevice urls) (path : Text)
        → Step m
            (with_device m (add_interface_from_file lib parse fs m.world.files m.device path).0)
    connects : (m : MqttDevice urls) (succeeds : Bool) → Step m (connect succeeds m).0
    disconnects :
        (m : MqttDevice urls) → Step m (with_device m (disconnect client waits m.device).0)
    sends_individual :
        (m : MqttDevice urls) (name path : Text) (v : Data numbers.Double) (t : Option ℤ)
        → Step m (
            with_device m
              (send_individual client waits (self_of m) builder m.device name path v t).0)
    sends_object :
        (m : MqttDevice urls) (name path : Text) (object : List (Text × Data numbers.Double))
        (t : Option ℤ)
        → Step m (
            with_device m
              (send_object client waits (self_of m) builder m.device name path object t).0)
    connected_to_broker :
        (m : MqttDevice urls)
        → Step m (
            with_session m
              (on_connected client (self_of m) m.device.introspection m.device.session))
    connection_lost :
        (m : MqttDevice urls) → Step m (with_session m (on_connection_lost m.device.session))
    setup_succeeds :
        (m : MqttDevice urls) (s : Session)
        → on_setup_success m.device.session ≡ some s
        → Step m (with_session m s)
    setup_fails :
        (m : MqttDevice urls) (s : Session)
        → on_setup_failure m.device.session ≡ some s
        → Step m (with_session m s)
    disconnected :
        (m : MqttDevice urls) → Step m (with_session m (on_disconnected m.device.session))

  -- Any number of steps.
  pub data Reaches (start : MqttDevice urls) : MqttDevice urls → Type 0 where
    at_start : Reaches start start
    further : (m m' : MqttDevice urls) → Reaches start m → Step m m' → Reaches start m'
