-- ===== src/DeviceMqtt/Tests.antt =====
-- A connected device that sends a reading.
use astarte_device_sdk_cpp.Base.{
  ℕ, ◌≡◌, ◌↔◌, ◌⊎◌, refl, exception, none, some, [], ◌∷◌, ◌++◌, Text, codes, length, All,
}
use astarte_device_sdk_cpp.Base.Int.{pos}
use astarte_device_sdk_cpp.Data.{Data}
use astarte_device_sdk_cpp.Interface.Validation.{Conforms}
use astarte_device_sdk_cpp.DeviceMqtt.Preparing.{IsPermitted}
use astarte_device_sdk_cpp.DeviceMqtt.Encoding.{send_individual-exception_iff}
use astarte_device_sdk_cpp.Serialize.{
  JsonBuilder, serialize_astarte_individual, serialize_astarte_object,
}
use astarte_device_sdk_cpp.DeviceMqtt.{encode, send_individual, send_object}
use astarte_device_sdk_cpp.DeviceMqtt.Publishing.{
  IsRefusal, IsPublication, send_individual-publishes, send_object-publishes,
}
use astarte_device_sdk_cpp.Examples.{doubles, device, identity, willing_client, patient, builder}
use astarte_device_sdk_cpp.Examples.Facts.{path, reading}

send_individual-publishes_example :
    IsRefusal
      (encode builder (serialize_astarte_individual builder [] (codes "v") reading (some (pos 5)))
        ≡ none)
      device
      (send_individual willing_client patient identity builder device
        (codes "a.B")
        path
        reading
        (some (pos 5)))
    ⊎ IsPublication
        (λ i. Conforms doubles i path reading (some (pos 5)))
        (λ bytes.
          encode builder
            (serialize_astarte_individual builder [] (codes "v") reading (some (pos 5)))
          ≡ some bytes)
        identity
        device
        (codes "a.B")
        path
        (send_individual willing_client patient identity builder device
          (codes "a.B")
          path
          reading
          (some (pos 5))).0
send_individual-publishes_example =
    send_individual-publishes willing_client patient identity builder device (codes "a.B") path
      reading (some (pos 5))

send_object-publishes_example :
    IsRefusal
      (encode builder
          (serialize_astarte_object builder [] ((codes "v", reading) ∷ []) (some (pos 5)))
        ≡ none)
      device
      (send_object willing_client patient identity builder device
        (codes "a.B")
        (codes "/s1")
        ((codes "v", reading) ∷ [])
        (some (pos 5)))
    ⊎ IsPublication
        (λ i.
          (length i.mappings ≡ 1)
          × All {A = Text × Data ℕ}
              (λ entry. Conforms doubles i (codes "/s1" ++ b'/' ∷ entry.0) entry.1 (some (pos 5)))
              ((codes "v", reading) ∷ []))
        (λ bytes.
          encode builder
            (serialize_astarte_object builder [] ((codes "v", reading) ∷ []) (some (pos 5)))
          ≡ some bytes)
        identity
        device
        (codes "a.B")
        (codes "/s1")
        (send_object willing_client patient identity builder device
          (codes "a.B")
          (codes "/s1")
          ((codes "v", reading) ∷ [])
          (some (pos 5))).0
send_object-publishes_example =
    send_object-publishes willing_client patient identity builder device (codes "a.B") (codes "/s1")
      ((codes "v", reading) ∷ []) (some (pos 5))

-- A library that cannot encode any document.
abbrev mute : JsonBuilder doubles
mute = record builder { dump = λ j. none }

send_individual-exception_iff_example :
    ((send_individual willing_client patient identity mute device
        (codes "a.B")
        path
        reading
        (some (pos 5))).1
      ≡ exception)
    ↔ (((qos : ℕ) × IsPermitted
            (λ i. Conforms doubles i path reading (some (pos 5)))
            device
            (codes "a.B")
            path
            qos)
        × (encode mute (serialize_astarte_individual mute [] (codes "v") reading (some (pos 5)))
            ≡ none))
send_individual-exception_iff_example =
    send_individual-exception_iff willing_client patient identity mute device (codes "a.B") path
      reading (some (pos 5)) (λ j key x. refl)
