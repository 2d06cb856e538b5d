-- ===== src/DeviceMqtt/Encoding.antt =====
-- When the sending of a datum ends in an exception.
use astarte_device_sdk_cpp.Base.{
  ℕ, ◌≡◌, ◌↔◌, refl, false, ap, subst, ◌∙◌, Option, none, Text, codes, ok, err, Attempt, exception,
  returns,
}
use astarte_device_sdk_cpp.Base.Int.{ℤ}
use astarte_device_sdk_cpp.Data.{Doubles, Data}
use astarte_device_sdk_cpp.Interface.Validation.{Conforms, validate_individual_iff}
use astarte_device_sdk_cpp.Serialize.{JsonBuilder, serialize_astarte_individual}
use astarte_device_sdk_cpp.Session.{Client, Identity}
use astarte_device_sdk_cpp.Connection.{Waits}
use astarte_device_sdk_cpp.DeviceMqtt.{
  DeviceMqtt, encode, encoded, with_bytes, check_individual, prepare_individual, deliver,
  send_individual,
}
use astarte_device_sdk_cpp.DeviceMqtt.Preparing.{
  IsPermitted, check_individual-IsPermitted, encoded-eq-exception,
}
use astarte_device_sdk_cpp.DeviceMqtt.Delivery.{check_individual-eq-ok}

module _ (client : Client) (waits : Waits) (self : Identity) where
  deliver-exception_iff :
      (device : DeviceMqtt) (name path : Text) (prepared : Attempt (ℕ × Text))
      → ((deliver client waits self device name path prepared).1 ≡ exception)
        ↔ (prepared ≡ exception)
  unfolding deliver
  deliver-exception_iff device name path exception = (λ h. refl, λ h. refl)
  deliver-exception_iff device name path (returns (err e)) = (λ h. absurd cc, λ h. absurd cc)
  deliver-exception_iff device name path (returns (ok (qos, bytes))) =
      (λ h. absurd cc, λ h. absurd cc)

  module _ {d : Doubles} (builder : JsonBuilder d) where
    open d use {Double}
    open builder use {Json, null, is_empty, emplace}

    -- `send_individual` ends in an exception exactly if the device was permitted to send the datum, that
    -- is it was connected, with the interface in its introspection, the datum fit the interface and the
    -- path has a quality of service, and the document of the datum cannot be encoded. The JSON library is
    -- one where an object with a member is not empty.
    pub send_individual-exception_iff :
        (device : DeviceMqtt) (name path : Text) (v : Data Double) (t : Option ℤ)
        → ((j : Json) (key : Text) (x : Json) → is_empty (emplace j key x) ≡ false)
        → ((send_individual client waits self builder device name path v t).1 ≡ exception) ↔ (
            ((qos : ℕ) × IsPermitted (λ i. Conforms d i path v t) device name path qos)
            × (encode builder (serialize_astarte_individual builder null (codes "v") v t) ≡ none))
    unfolding send_individual prepare_individual
    send_individual-exception_iff device name path v t law =
        let checked = check_individual builder device name path v t in
        let (to, from) = deliver-exception_iff device name path (encoded builder checked) in
        (
          λ h.
              let (qos, bson, c, e) = encoded-eq-exception builder checked (to h) in
              let (permitted, same) =
                check_individual-IsPermitted builder device name path v t qos bson c in
              ((qos, permitted), subst (λ j. encode builder j ≡ none) same e),
          λ ((qos, p), e).
              let valid = (validate_individual_iff d p.interface path v t).1 p.fits in
              from (
                ap (encoded builder) (
                  check_individual-eq-ok client waits self builder device name path v t p.interface
                    qos law p.connected p.supported valid p.quality)
                ∙ unfold encoded in ap (with_bytes builder qos) e),
        )
