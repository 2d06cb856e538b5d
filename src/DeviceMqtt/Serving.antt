-- ===== src/DeviceMqtt/Serving.antt =====
-- What a device does for the application after any history.
use astarte_device_sdk_cpp.Base.{
  ℕ, ◌≡◌, inl, inr, true, false, Bool-cases, Option, some, List, [], ◌∷◌, Text, text_eq, codes, All,
  ok, returns, arith,
}
use astarte_device_sdk_cpp.Base.Int.{ℤ}
use astarte_device_sdk_cpp.Data.{Data}
use astarte_device_sdk_cpp.EndpointPath.{starts_with_byte}
use astarte_device_sdk_cpp.Interface.{Interface}
use astarte_device_sdk_cpp.Interface.Validation.{Conforms}
use astarte_device_sdk_cpp.Interface.Parse.Laws.{IsWellFormed}
use astarte_device_sdk_cpp.OrderedMap.{find}
use astarte_device_sdk_cpp.Introspection.{get}
use astarte_device_sdk_cpp.Introspection.Versions.{get_of_find}
use astarte_device_sdk_cpp.Serialize.{serialize_astarte_individual}
use astarte_device_sdk_cpp.Session.{Session, Request}
use astarte_device_sdk_cpp.Config.{Config}
use astarte_device_sdk_cpp.Connection.{settles}
use astarte_device_sdk_cpp.Connection.Setup.{World}
use astarte_device_sdk_cpp.DeviceMqtt.{is_connected, encode, send_individual}
use astarte_device_sdk_cpp.DeviceMqtt.Publishing.{with_message}
use astarte_device_sdk_cpp.DeviceMqtt.Delivery.{send_individual_succeeds}
use astarte_device_sdk_cpp.DeviceMqtt.Invariant.{reached-IsOrderly}
use astarte_device_sdk_cpp.DeviceMqtt.Lifecycle.{Surroundings, MqttDevice, self_of, create, Reaches}

found-IsWellFormed :
    (name : Text) (entries : List (Text × Interface)) (i : Interface)
    → All (λ entry. IsWellFormed entry.1) entries
    → find name entries ≡ some i
    → IsWellFormed i
unfolding find
found-IsWellFormed name [] i h e = absurd cc
found-IsWellFormed name ((k, j) ∷ entries) i (w, h) e = elim (Bool-cases (text_eq k name)) [
  | inl here ↦ ground arith
  | inr there ↦ found-IsWellFormed name entries i h (ground arith)
]

-- A device that was created and counts as connected, whatever the application and the client did
-- before, delivers: a datum that an interface of its introspection takes, on a path that starts with a
-- slash, is published without an error, if its document can be encoded, the client takes every message
-- and no wait throws. The JSON library is one where an object with a member is not empty.
pub reached_device_delivers :
    (env : Surroundings) (cfg : Config) (world : World) (start m : MqttDevice env.urls)
    (name path : Text) (v : Data env.numbers.Double) (t : Option ℤ) (i : Interface) (bytes : Text)
    → ((j : env.builder.Json) (key : Text) (x : env.builder.Json)
        → env.builder.is_empty (env.builder.emplace j key x) ≡ false)
    → ((s : Session) (r : Request) → settles env.client env.waits s r ≡ true)
    → (create env cfg world).1 ≡ returns (ok start)
    → Reaches env start m
    → is_connected m.device ≡ true
    → get m.device.introspection name ≡ ok i
    → Conforms env.numbers i path v t
    → encode env.builder (serialize_astarte_individual env.builder env.builder.null (codes "v") v t)
      ≡ some bytes
    → starts_with_byte b'/' path ≡ true
    → (qos : ℕ) × (send_individual env.client env.waits
          (self_of m)
          env.builder
          m.device
          name
          path
          v
          t
        ≡ (with_message (self_of m) m.device name path qos bytes, returns (ok (tt {0}))))
reached_device_delivers env cfg world start m name path v t i bytes law takes created reaches on
      found c e r =
    let (_, (sound, accounted)) = reached-IsOrderly env cfg world start m created reaches in
    send_individual_succeeds env.client env.waits (self_of m) env.builder m.device name path v t i
      bytes law takes on found
      (found-IsWellFormed name m.device.introspection.interfaces i sound.formed
        (get_of_find m.device.introspection name i found))
      c e r
