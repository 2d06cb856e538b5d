-- ===== src/DeviceMqtt/Delivery.antt =====
-- That a datum which fits its interface does reach the broker.
use astarte_device_sdk_cpp.Base.{
  ℕ, ◌≤◌, ◌≡◌, ap, true, false, Option, none, some, Text, codes, ok, returns,
}
use astarte_device_sdk_cpp.Base.Int.{ℤ}
use astarte_device_sdk_cpp.Data.{Doubles, Data}
use astarte_device_sdk_cpp.EndpointPath.{starts_with_byte}
use astarte_device_sdk_cpp.Interface.{Interface, validate_individual, get_qos}
use astarte_device_sdk_cpp.Interface.Validation.{Conforms, validate_individual_iff}
use astarte_device_sdk_cpp.Interface.Parse.Laws.{IsWellFormed}
use astarte_device_sdk_cpp.Interface.Quality.{get_qos_of_validated}
use astarte_device_sdk_cpp.Introspection.{get}
use astarte_device_sdk_cpp.Serialize.{JsonBuilder, serialize_astarte_individual}
use astarte_device_sdk_cpp.Session.{Session, Client, Identity, Request, publish}
use astarte_device_sdk_cpp.Connection.{Waits, data_topic, settles}
use astarte_device_sdk_cpp.Connection.Laws.{send-eq-ok}
use astarte_device_sdk_cpp.DeviceMqtt.{
  DeviceMqtt, is_connected, encode, encoded, check_individual, prepare_individual, deliver,
  send_individual,
}
use astarte_device_sdk_cpp.DeviceMqtt.Publishing.{with_message}

module _ (client : Client) (waits : Waits) (self : Identity) where
  deliver-eq-ok :
      (device : DeviceMqtt) (name path : Text) (qos : ℕ) (bytes : Text)
      → starts_with_byte b'/' path ≡ true
      → qos ≤ 2
      → settles client waits device.session (publish (data_topic self name path) bytes qos false)
        ≡ true
      → deliver client waits self device name path (returns (ok (qos, bytes)))
        ≡ (with_message self device name path qos bytes, returns (ok tt))
  unfolding deliver
  deliver-eq-ok device name path qos bytes r b h =
      ap (λ (s, outcome). (record device { session = s }, returns outcome))
        (send-eq-ok client waits self device.session name path qos bytes r b h)

  module _ {d : Doubles} (builder : JsonBuilder d) where
    open d use {Double}
    open builder use {Json, null, is_empty, emplace}

    serialized_not_empty :
        (v : Data Double) (t : Option ℤ)
        → ((j : Json) (key : Text) (x : Json) → is_empty (emplace j key x) ≡ false)
        → is_empty (serialize_astarte_individual builder null (codes "v") v t) ≡ false
    unfolding serialize_astarte_individual
    serialized_not_empty v none law = law null (codes "v") _
    serialized_not_empty v (some t) law = law _ (codes "t") _

    pub check_individual-eq-ok :
        (device : DeviceMqtt) (name path : Text) (v : Data Double) (t : Option ℤ) (i : Interface)
        (qos : ℕ)
        → ((j : Json) (key : Text) (x : Json) → is_empty (emplace j key x) ≡ false)
        → is_connected device ≡ true
        → get device.introspection name ≡ ok i
        → validate_individual d i path v t ≡ ok tt
        → get_qos i path ≡ ok qos
        → check_individual builder device name path v t
          ≡ ok (qos, serialize_astarte_individual builder null (codes "v") v t)
    unfolding check_individual
    check_individual-eq-ok device name path v t i qos law on found valid quality =
        rw (on, found, valid, quality, serialized_not_empty v t law)

    -- On a connected device, a datum that an interface of its introspection takes, where that
    -- interface was read from JSON and the path starts with a slash, is sent without an error if the
    -- client takes every message and no wait throws, and if its document can be encoded. The JSON
    -- library is one where an object with a member is not empty.
    pub send_individual_succeeds :
        (device : DeviceMqtt) (name path : Text) (v : Data Double) (t : Option ℤ) (i : Interface)
        (bytes : Text)
        → ((j : Json) (key : Text) (x : Json) → is_empty (emplace j key x) ≡ false)
        → ((s : Session) (r : Request) → settles client waits s r ≡ true)
        → is_connected device ≡ true
        → get device.introspection name ≡ ok i
        → IsWellFormed i
        → Conforms d i path v t
        → encode builder (serialize_astarte_individual builder null (codes "v") v t) ≡ some bytes
        → starts_with_byte b'/' path ≡ true
        → (qos : ℕ) × (send_individual client waits self builder device name path v t
            ≡ (with_message self device name path qos bytes, returns (ok (tt {0}))))
    unfolding send_individual prepare_individual encoded
    send_individual_succeeds device name path v t i bytes law takes on found w c e r =
        let valid = (validate_individual_iff d i path v t).1 c in
        let (qos, quality, bounded) = get_qos_of_validated d i path v t w valid in
        (
          qos,
          rw (check_individual-eq-ok device name path v t i qos law on found valid quality, e)
              (deliver-eq-ok device name path qos _ r bounded (takes device.session _)),
        )
