-- ===== src/DeviceMqtt/Accounts.antt =====
-- Why a device has asked the MQTT client for what it has asked, over its whole life.
use astarte_device_sdk_cpp.Base.{
  ℕ, ◌≤◌, ◌≡◌, true, false, Option, some, List, [], ◌∷◌, ◌++◌, Text, codes, All, length, err, Error,
}
use astarte_device_sdk_cpp.Base.Int.{ℤ}
use astarte_device_sdk_cpp.Data.{Data}
use astarte_device_sdk_cpp.EndpointPath.{starts_with_byte}
use astarte_device_sdk_cpp.Interface.Validation.{Conforms}
use astarte_device_sdk_cpp.Introspection.{values}
use astarte_device_sdk_cpp.Serialize.{serialize_astarte_individual, serialize_astarte_object}
use astarte_device_sdk_cpp.Session.{
  Request, subscribe, publish, base_topic, subscription_topics, twos, introspection_payload,
  perform_session_setup,
}
use astarte_device_sdk_cpp.Connection.{data_topic}
use astarte_device_sdk_cpp.DeviceMqtt.{is_connected, encode}
use astarte_device_sdk_cpp.DeviceMqtt.Preparing.{IsPermitted}
use astarte_device_sdk_cpp.DeviceMqtt.Lifecycle.{
  Surroundings, MqttDevice, self_of, Step, Reaches, further,
}

module _ (env : Surroundings) where
  -- A state of the run from the start to now.
  abbrev pub Passed : MqttDevice env.urls → MqttDevice env.urls → MqttDevice env.urls → Type 0
  Passed start now then' = Reaches env start then' × Reaches env then' now

  -- Why the device has made a request, by a state that it has passed: the setup of a session in that
  -- state, the giving up of a setup that fails there, a disconnection that is asked for where it is
  -- connected, or a message that it was permitted to send there.
  pub data IsAccounted (start now : MqttDevice env.urls) : Request → Type 0 where
    subscription :
        (m : MqttDevice env.urls)
        → Passed start now m
        → IsAccounted start now (
            subscribe
              (subscription_topics (self_of m) (values m.device.introspection))
              (twos (subscription_topics (self_of m) (values m.device.introspection))))
    announcement :
        (m : MqttDevice env.urls)
        → Passed start now m
        → IsAccounted start now (
            publish
              (base_topic (self_of m))
              (introspection_payload (values m.device.introspection))
              2
              false)
    empty_cache :
        (m : MqttDevice env.urls)
        → Passed start now m
        → IsAccounted start now
            (publish (base_topic (self_of m) ++ codes "/control/emptyCache") (codes "1") 2 false)
    given_up :
        (m : MqttDevice env.urls) (e : Error)
        → Passed start now m
        → (perform_session_setup env.client
            (self_of m)
            m.device.introspection
            false
            m.device.session).1
          ≡ err e
        → IsAccounted start now Request.disconnect
    farewell :
        (m : MqttDevice env.urls)
        → Passed start now m
        → is_connected m.device ≡ true
        → IsAccounted start now Request.disconnect
    individual :
        (m : MqttDevice env.urls) (name path : Text) (v : Data env.numbers.Double) (t : Option ℤ)
        (qos : ℕ) (bytes : Text)
        → Passed start now m
        → IsPermitted (λ i. Conforms env.numbers i path v t) m.device name path qos
        → encode env.builder
            (serialize_astarte_individual env.builder env.builder.null (codes "v") v t)
          ≡ some bytes
        → qos ≤ 2
        → starts_with_byte b'/' path ≡ true
        → IsAccounted start now (publish (data_topic (self_of m) name path) bytes qos false)
    object :
        (m : MqttDevice env.urls) (name path : Text)
        (entries : List (Text × Data env.numbers.Double)) (t : Option ℤ) (qos : ℕ) (bytes : Text)
        → Passed start now m
        → IsPermitted
            (λ i.
              (length i.mappings ≡ length entries)
              × All (λ entry. Conforms env.numbers i (path ++ b'/' ∷ entry.0) entry.1 t) entries)
            m.device
            name
            path
            qos
        → encode env.builder (serialize_astarte_object env.builder env.builder.null entries t)
          ≡ some bytes
        → qos ≤ 2
        → starts_with_byte b'/' path ≡ true
        → IsAccounted start now (publish (data_topic (self_of m) name path) bytes qos false)

module _ (env : Surroundings) (start : MqttDevice env.urls) where
  IsAccounted-later :
      (m m' : MqttDevice env.urls) (r : Request)
      → Step env m m'
      → IsAccounted env start m r
      → IsAccounted env start m' r
  IsAccounted-later m m' _ s (subscription b (p, q)) = subscription b (p, further m m' q s)
  IsAccounted-later m m' _ s (announcement b (p, q)) = announcement b (p, further m m' q s)
  IsAccounted-later m m' _ s (empty_cache b (p, q)) = empty_cache b (p, further m m' q s)
  IsAccounted-later m m' _ s (given_up b e (p, q) h) = given_up b e (p, further m m' q s) h
  IsAccounted-later m m' _ s (farewell b (p, q) h) = farewell b (p, further m m' q s) h
  IsAccounted-later m m' _ s (individual b name path v t qos bytes (p, q) fit doc bound root) =
      individual b name path v t qos bytes (p, further m m' q s) fit doc bound root
  IsAccounted-later m m' _ s (object b name path es t qos bytes (p, q) fit doc bound root) =
      object b name path es t qos bytes (p, further m m' q s) fit doc bound root

  pub all-IsAccounted_later :
      (m m' : MqttDevice env.urls) (rs : List Request)
      → Step env m m'
      → All (IsAccounted env start m) rs
      → All (IsAccounted env start m') rs
  all-IsAccounted_later m m' [] s h = tt
  all-IsAccounted_later m m' (r ∷ rs) s (h, hs) =
      (IsAccounted-later m m' r s h, all-IsAccounted_later m m' rs s hs)
