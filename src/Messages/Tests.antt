-- ===== src/Messages/Tests.antt =====
-- Two messages with an object, whose entries are in another order.
use astarte_device_sdk_cpp.Base.{
  ℕ, zero, ◌≡◌, ◌↔◌, refl, Bool, true, false, [], ◌∷◌, text_eq, codes, ◌==◌,
}
use astarte_device_sdk_cpp.Data.{Data, float64}
use astarte_device_sdk_cpp.DatastreamObject.{find}
use astarte_device_sdk_cpp.GrpcConverter.{Received, Content, object}
use astarte_device_sdk_cpp.Messages.{same_message}
use astarte_device_sdk_cpp.Messages.Equality.{IsMap, Agrees, same_message_iff}

abbrev one_way : Received (Content ℕ)
one_way = record {
  interface_name = codes "a.B";
  path = codes "/v";
  content = object ((codes "/a", float64 1) ∷ (codes "/b", float64 0) ∷ []);
}

abbrev other_way : Received (Content ℕ)
other_way = record {
  interface_name = codes "a.B";
  path = codes "/v";
  content = object ((codes "/b", float64 0) ∷ (codes "/a", float64 1) ∷ []);
}

-- A double that is not the same as itself, as the numbers that are none.
abbrev same_value : Data ℕ → Data ℕ → Bool
same_value (float64 x) (float64 zero) = false
same_value (float64 x) (float64 y) = x == y
same_value _ _ = false

one_way-IsMap : IsMap one_way.content
unfolding IsMap find text_eq
one_way-IsMap = (refl, (refl, tt))

other_way-IsMap : IsMap other_way.content
unfolding IsMap find text_eq
other_way-IsMap = (refl, (refl, tt))

same_message_iff_example : (same_message same_value one_way other_way ≡ true) ↔ (
    (codes "a.B" ≡ codes "a.B")
    × (codes "/v" ≡ codes "/v")
    × Agrees same_value one_way.content other_way.content)
same_message_iff_example =
    same_message_iff same_value one_way other_way one_way-IsMap other_way-IsMap
