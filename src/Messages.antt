-- ===== src/Messages.antt =====
-- `operator==` of src/msg.cpp, individual.cpp, property.cpp and stored_property.cpp. The
-- comparison of two values is a parameter: that of the variant behind `Data`.
pub mod Equality
pub mod Tests
use astarte_device_sdk_cpp.Base.{
  ◌+◌, ◌==◌, Bool, true, false, ◌&&◌, Option, none, some, List, Text, text_eq,
}
use astarte_device_sdk_cpp.Base.Int.{ℤ, pos_part, neg_part}
use astarte_device_sdk_cpp.Data.{Data, Ownership, same_owner}
use astarte_device_sdk_cpp.GrpcConverter.Properties.{StoredProperty}
use astarte_device_sdk_cpp.DatastreamObject.{same_object}
use astarte_device_sdk_cpp.GrpcConverter.{Received, Content, individual, object, property}

-- `==` on the versions.
abbrev pub same_int : ℤ → ℤ → Bool
same_int a b = pos_part a + neg_part b == pos_part b + neg_part a

module _ {D : Type 0} (same : Data D → Data D → Bool) where
  abbrev pub same_property : Option (Data D) → Option (Data D) → Bool
  same_property none none = true
  same_property (some value) (some other) = same value other
  same_property _ _ = false

  -- The variants must hold the same alternative.
  unfoldable pub same_content : Content D → Content D → Bool
  same_content (individual value) (individual other) = same value other
  same_content (object entries) (object others) = same_object same entries others
  same_content (property value) (property other) = same_property value other
  same_content _ _ = false

  unfoldable pub same_message : Received (Content D) → Received (Content D) → Bool
  same_message message other =
      text_eq message.interface_name other.interface_name
      && text_eq message.path other.path
      && same_content message.content other.content

  -- `StoredProperty::operator==`.
  unfoldable pub same_stored_property :
      StoredProperty Ownership (Data D) → StoredProperty Ownership (Data D) → Bool
  same_stored_property prop other =
      text_eq prop.interface_name other.interface_name
      && text_eq prop.path other.path
      && same_int prop.version_major other.version_major
      && same_owner prop.ownership other.ownership
      && same prop.value other.value
