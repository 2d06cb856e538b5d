-- ===== src/DeviceMqtt/Publishing.antt =====
-- What reaches the broker when a device sends a datum.
use astarte_device_sdk_cpp.Base.{
  ℕ, ◌≤◌, ◌≡◌, ◌⊎◌, inl, inr, refl, ap, true, Option, List, ◌∷◌, ◌++◌, Text, codes, All, length, ok,
  err, Attempt, exception, returns, none, some, Error,
}
use astarte_device_sdk_cpp.Base.Int.{ℤ}
use astarte_device_sdk_cpp.Data.{Doubles, Data}
use astarte_device_sdk_cpp.EndpointPath.{starts_with_byte}
use astarte_device_sdk_cpp.Interface.{Interface}
use astarte_device_sdk_cpp.Interface.Validation.{Conforms}
use astarte_device_sdk_cpp.Serialize.{
  JsonBuilder, serialize_astarte_individual, serialize_astarte_object,
}
use astarte_device_sdk_cpp.Session.{Client, Identity}
use astarte_device_sdk_cpp.Connection.{Waits}
use astarte_device_sdk_cpp.Connection.Laws.{published, send-cases}
use astarte_device_sdk_cpp.DeviceMqtt.{
  DeviceMqtt, encode, check_individual, check_object, prepare_individual, prepare_object, deliver,
  send_individual, send_object,
}
use astarte_device_sdk_cpp.DeviceMqtt.Preparing.{
  IsPermitted, check_individual-IsPermitted, check_object-IsPermitted, prepared-IsPermitted,
}

-- One message published on a device's behalf.
abbrev pub with_message : Identity → DeviceMqtt → Text → Text → ℕ → Text → DeviceMqtt
with_message self device name path qos bytes = record device {
  session = published self device.session name path qos bytes;
}

-- The device is as before, and there is an error, or the exception of a document that cannot be
-- encoded.
abbrev pub IsRefusal : Type 0 → DeviceMqtt → DeviceMqtt × Attempt (Unit {0}) → Type 0
IsRefusal Unencodable device (device', outcome) =
    (device' ≡ device)
    × (((e : Error) × (outcome ≡ returns (err e))) ⊎ ((outcome ≡ exception) × Unencodable))

-- One message went out: on the topic of the interface and the path, with a permitted quality of
-- service and the bytes of the document.
abbrev pub IsPublication :
    (Interface → Type 0)
    → (Text → Type 0)
    → Identity
    → DeviceMqtt
    → Text
    → Text
    → DeviceMqtt
    → Type 0
IsPublication Fits IsDocument self device name path device' =
    (qos : ℕ) × (bytes : Text) × IsPermitted Fits device name path qos
    × IsDocument bytes
    × (qos ≤ 2)
    × (starts_with_byte b'/' path ≡ true)
    × (device' ≡ with_message self device name path qos bytes)

module _ (client : Client) (waits : Waits) (self : Identity) where
  deliver-cases :
      (Unencodable : Type 0) (Fits : Interface → Type 0) (IsDocument : Text → Type 0)
      (device : DeviceMqtt) (name path : Text) (prepared : Attempt (ℕ × Text))
      → ((qos : ℕ) (bytes : Text)
          → prepared ≡ returns (ok (qos, bytes))
          → IsPermitted Fits device name path qos × IsDocument bytes)
        × (prepared ≡ exception → Unencodable)
      → IsRefusal Unencodable device (deliver client waits self device name path prepared)
        ⊎ IsPublication Fits IsDocument self device name path
            (deliver client waits self device name path prepared).0
  unfolding deliver
  deliver-cases Unencodable Fits IsDocument device name path exception (permitted, raises) =
      inl (refl, inr (refl, raises refl))
  deliver-cases Unencodable Fits IsDocument device name path (returns (err e)) (permitted, raises) =
      inl (refl, inl (e, refl))
  deliver-cases Unencodable Fits IsDocument device name path (returns (ok (qos, bytes)))
        (permitted, raises) =
      elim (send-cases client waits self device.session name path qos bytes) [
        | inl e ↦ inl (rw e (refl, inl (Error.mqtt_error, refl)))
        | inr (rooted, bounded, e) ↦
            let (p, q) = permitted qos bytes refl in
            inr (qos, bytes, p, q, bounded, rooted, ap (λ s. record device { session = s }) e)
      ]

  module _ {d : Doubles} (builder : JsonBuilder d) where
    open d use {Double}
    open builder use {Json, null, is_empty, emplace, to_bson}

    -- `send_individual` either changes nothing, and then reports an error or ends in the exception of a
    -- document that cannot be encoded, or publishes exactly one message, and then the device was connected, the interface is in its introspection, its first
    -- mapping for the path takes the datum and the timestamp, the quality of service is that of the
    -- interface and at most 2, the path starts with a slash, and the bytes are those of the document.
    pub send_individual-publishes :
        (device : DeviceMqtt) (name path : Text) (v : Data Double) (t : Option ℤ)
        → IsRefusal
            (encode builder (serialize_astarte_individual builder null (codes "v") v t) ≡ none)
            device
            (send_individual client waits self builder device name path v t)
          ⊎ IsPublication
              (λ i. Conforms d i path v t)
              (λ bytes.
                encode builder (serialize_astarte_individual builder null (codes "v") v t)
                ≡ some bytes)
              self
              device
              name
              path
              (send_individual client waits self builder device name path v t).0
    unfolding send_individual prepare_individual
    send_individual-publishes device name path v t =
        let document = serialize_astarte_individual builder null (codes "v") v t in
        deliver-cases _ _ _ device name path (prepare_individual builder device name path v t) (
          prepared-IsPermitted builder (check_individual builder device name path v t) _ document
            device name path (check_individual-IsPermitted builder device name path v t))

    -- `send_object` likewise: when it publishes, the object has as many entries as the interface has
    -- mappings, and each entry is taken at the common path, a slash and its key.
    pub send_object-publishes :
        (device : DeviceMqtt) (name path : Text) (object : List (Text × Data Double)) (t : Option ℤ)
        → IsRefusal
            (encode builder (serialize_astarte_object builder null object t) ≡ none)
            device
            (send_object client waits self builder device name path object t)
          ⊎ IsPublication
              (λ i.
                (length i.mappings ≡ length object)
                × All (λ entry. Conforms d i (path ++ b'/' ∷ entry.0) entry.1 t) object)
              (λ bytes.
                encode builder (serialize_astarte_object builder null object t) ≡ some bytes)
              self
              device
              name
              path
              (send_object client waits self builder device name path object t).0
    unfolding send_object prepare_object
    send_object-publishes device name path object t =
        let document = serialize_astarte_object builder null object t in
        deliver-cases _ _ _ device name path (prepare_object builder device name path object t) (
          prepared-IsPermitted builder (check_object builder device name path object t) _ document
            device name path (check_object-IsPermitted builder device name path object t))
