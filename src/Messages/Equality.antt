-- ===== src/Messages/Equality.antt =====
-- When two messages compare as equal.
use astarte_device_sdk_cpp.Base.{
  ==_iff, ◌+◌, ◌≡◌, refl, ◌↔◌, Bool, true, ◌&&◌, Option, none, some, Text, text_eq, text_eq_iff,
  arith,
}
use astarte_device_sdk_cpp.Base.Int.{ℤ, pos_part, neg_part, eq_of_parts}
use astarte_device_sdk_cpp.Data.{Data, Ownership, same_owner, same_owner_iff}
use astarte_device_sdk_cpp.GrpcConverter.Properties.{StoredProperty}
use astarte_device_sdk_cpp.DatastreamObject.{find}
use astarte_device_sdk_cpp.DatastreamObject.Lookup.{IsDistinct}
use astarte_device_sdk_cpp.DatastreamObject.Equality.{Matches, same_object_iff}
use astarte_device_sdk_cpp.GrpcConverter.{Received, Content, individual, object, property}
use astarte_device_sdk_cpp.Messages.{
  same_property, same_content, same_message, same_int, same_stored_property,
}

all_three : (p q r : Bool) → ((p && q && r) ≡ true) ↔ ((p ≡ true) × (q ≡ true) × (r ≡ true))
all_three p q r = ground arith

module _ {D : Type 0} where
  -- The keys of an object are distinct.
  unfoldable pub IsMap : Content D → Type 0
  IsMap (object entries) = IsDistinct entries
  IsMap _ = Unit

  -- Values that compare as the same, or the like for each key, or for a property where it is set.
  unfoldable pub Agrees : (Data D → Data D → Bool) → Content D → Content D → Type 0
  Agrees same (individual value) (individual other) = same value other ≡ true
  Agrees same (object entries) (object others) =
      (key : Text) → Matches same (find key entries) (find key others)
  Agrees same (property value) (property other) = Matches same value other
  Agrees same _ _ = ⊥

all_five :
    (p q r s t : Bool)
    → ((p && q && r && s && t) ≡ true)
      ↔ ((p ≡ true) × (q ≡ true) × (r ≡ true) × (s ≡ true) × (t ≡ true))
all_five p q r s t = ground arith

same_int_iff : (a b : ℤ) → (same_int a b ≡ true) ↔ (a ≡ b)
same_int_iff a b =
    ground (arith, ==_iff (pos_part a + neg_part b) (pos_part b + neg_part a), eq_of_parts a b)

module _ {D : Type 0} (same : Data D → Data D → Bool) where
  same_property_iff :
      (value other : Option (Data D))
      → (same_property same value other ≡ true) ↔ Matches same value other
  unfolding Matches
  same_property_iff none none = (λ h. tt, λ h. refl)
  same_property_iff none (some other) = (λ h. absurd cc, λ h. absurd h)
  same_property_iff (some value) none = (λ h. absurd cc, λ h. absurd h)
  same_property_iff (some value) (some other) = (λ h. h, λ h. h)

  same_content_iff :
      (content other : Content D)
      → IsMap content
      → IsMap other
      → (same_content same content other ≡ true) ↔ Agrees same content other
  unfolding same_content IsMap Agrees
  same_content_iff (individual value) (individual other) m n = (λ h. h, λ h. h)
  same_content_iff (object entries) (object others) m n = same_object_iff same entries others m n
  same_content_iff (property value) (property other) m n = same_property_iff value other
  same_content_iff (individual value) (object others) m n = (λ h. absurd cc, λ h. absurd h)
  same_content_iff (individual value) (property other) m n = (λ h. absurd cc, λ h. absurd h)
  same_content_iff (object entries) (individual other) m n = (λ h. absurd cc, λ h. absurd h)
  same_content_iff (object entries) (property other) m n = (λ h. absurd cc, λ h. absurd h)
  same_content_iff (property value) (individual other) m n = (λ h. absurd cc, λ h. absurd h)
  same_content_iff (property value) (object others) m n = (λ h. absurd cc, λ h. absurd h)

  -- Two messages compare as equal exactly if they have the same interface and path and contents of
  -- one kind that agree: values that compare as the same, a property that is unset in both or set in
  -- both to values that compare as the same, or objects where every key is absent from both or has in
  -- both values that compare as the same, in whatever order: if the keys of an object are distinct.
  -- What it is that two values compare as the same is open.
  pub same_message_iff :
      (message other : Received (Content D))
      → IsMap message.content
      → IsMap other.content
      → (same_message same message other ≡ true) ↔ (
          (message.interface_name ≡ other.interface_name)
          × (message.path ≡ other.path)
          × Agrees same message.content other.content)
  unfolding same_message
  same_message_iff message other m n =
      let (i, i') = text_eq_iff message.interface_name other.interface_name in
      let (p, p') = text_eq_iff message.path other.path in
      let (c, c') = same_content_iff message.content other.content m n in
      let (to, from) =
        all_three (text_eq message.interface_name other.interface_name)
          (text_eq message.path other.path) (same_content same message.content other.content) in
      (λ h. let (x, y, z) = to h in (i x, p y, c z), λ (x, y, z). from (i' x, p' y, c' z))

  -- Two stored properties compare as equal exactly if they are equal in interface, path, version and
  -- owner, and their values compare as the same.
  pub same_stored_property_iff :
      (prop other : StoredProperty Ownership (Data D))
      → (same_stored_property same prop other ≡ true) ↔ (
          (prop.interface_name ≡ other.interface_name)
          × (prop.path ≡ other.path)
          × (prop.version_major ≡ other.version_major)
          × (prop.ownership ≡ other.ownership)
          × (same prop.value other.value ≡ true))
  unfolding same_stored_property
  same_stored_property_iff prop other =
      let (i, i') = text_eq_iff prop.interface_name other.interface_name in
      let (p, p') = text_eq_iff prop.path other.path in
      let (v, v') = same_int_iff prop.version_major other.version_major in
      let (o, o') = same_owner_iff prop.ownership other.ownership in
      let (to, from) =
        all_five (text_eq prop.interface_name other.interface_name) (text_eq prop.path other.path)
          (same_int prop.version_major other.version_major)
          (same_owner prop.ownership other.ownership) (same prop.value other.value) in
      (
        λ h. let (a, b, c, d, e) = to h in (i a, p b, v c, o d, e),
        λ (a, b, c, d, e). from (i' a, p' b, v' c, o' d, e),
      )
