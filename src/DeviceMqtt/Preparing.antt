-- ===== src/DeviceMqtt/Preparing.antt =====
-- What was checked before a device sends a datum.
use astarte_device_sdk_cpp.Base.{
  ℕ, ◌≡◌, refl, sym, ap, ◌∙◌, true, not, Option, List, ◌∷◌, ◌++◌, Text, codes, All, length, ◌==◌,
  Result, ok, err, exception, returns, subst, none, some, >>=-eq-ok, reject_if-eq-ok, ok-injective,
  arith,
}
use astarte_device_sdk_cpp.Base.Int.{ℤ}
use astarte_device_sdk_cpp.Data.{Doubles, Data}
use astarte_device_sdk_cpp.Interface.{Interface, validate_individual, validate_object, get_qos}
use astarte_device_sdk_cpp.Interface.Validation.{
  Conforms, validate_individual_iff, validate_object_iff,
}
use astarte_device_sdk_cpp.Introspection.{get}
use astarte_device_sdk_cpp.Serialize.{
  JsonBuilder, serialize_astarte_individual, serialize_astarte_object,
}
use astarte_device_sdk_cpp.DeviceMqtt.{
  DeviceMqtt, is_connected, encode, with_bytes, encoded, check_individual, check_object,
}

-- Why a message may be published: what the device, its interface and the interface's mapping say.
-- `Fits` is what the interface must say of the datum.
pub record IsPermitted (Fits : Interface → Type 0) (device : DeviceMqtt) (name path : Text)
    (qos : ℕ) : Type 0 where
  pub interface : Interface
  pub connected : is_connected device ≡ true
  pub supported : get device.introspection name ≡ ok interface
  pub fits : Fits interface
  pub quality : get_qos interface path ≡ ok qos

module _ {d : Doubles} (builder : JsonBuilder d) where
  open d use {Double}
  open builder use {Json, null, is_empty}

  pub check_individual-IsPermitted :
      (device : DeviceMqtt) (name path : Text) (v : Data Double) (t : Option ℤ) (qos : ℕ)
      (bson : Json)
      → check_individual builder device name path v t ≡ ok (qos, bson)
      → IsPermitted (λ i. Conforms d i path v t) device name path qos
        × (bson ≡ serialize_astarte_individual builder null (codes "v") v t)
  unfolding check_individual
  check_individual-IsPermitted device name path v t qos bson h =
      let (on, h1) = reject_if-eq-ok (not (is_connected device)) _ _ h in
      let (i, found, h2) = >>=-eq-ok (get device.introspection name) _ h1 in
      let (_, valid, h3) = >>=-eq-ok (validate_individual d i path v t) _ h2 in
      let (q, quality, h4) = >>=-eq-ok (get_qos i path) _ h3 in
      let (_, last) = reject_if-eq-ok (is_empty _) _ _ h4 in
      let same = ok-injective last in
      (
        record {
          interface = i;
          connected = ground arith;
          supported = found;
          fits = (validate_individual_iff d i path v t).0 valid;
          quality = quality ∙ ap (λ p. ok p.0) same;
        },
        sym (ap (λ p. p.1) same),
      )

  pub check_object-IsPermitted :
      (device : DeviceMqtt) (name path : Text) (object : List (Text × Data Double)) (t : Option ℤ)
      (qos : ℕ) (bson : Json)
      → check_object builder device name path object t ≡ ok (qos, bson)
      → IsPermitted
          (λ i.
            (length i.mappings ≡ length object)
            × All (λ entry. Conforms d i (path ++ b'/' ∷ entry.0) entry.1 t) object)
          device
          name
          path
          qos
        × (bson ≡ serialize_astarte_object builder null object t)
  unfolding check_object
  check_object-IsPermitted device name path object t qos bson h =
      let (on, h1) = reject_if-eq-ok (not (is_connected device)) _ _ h in
      let (i, found, h2) = >>=-eq-ok (get device.introspection name) _ h1 in
      let (full, h3) = reject_if-eq-ok (not (length i.mappings == length object)) _ _ h2 in
      let (_, valid, h4) = >>=-eq-ok (validate_object d i path object t) _ h3 in
      let (q, quality, h5) = >>=-eq-ok (get_qos i path) _ h4 in
      let (_, last) = reject_if-eq-ok (is_empty _) _ _ h5 in
      let same = ok-injective last in
      (
        record {
          interface = i;
          connected = ground arith;
          supported = found;
          fits = (ground arith, (validate_object_iff d i path object t).0 valid);
          quality = quality ∙ ap (λ p. ok p.0) same;
        },
        sym (ap (λ p. p.1) same),
      )

  with_bytes-eq-ok :
      (q qos : ℕ) (opt : Option Text) (bytes : Text)
      → with_bytes builder q opt ≡ returns (ok (qos, bytes))
      → (q ≡ qos) × (opt ≡ some bytes)
  with_bytes-eq-ok q qos none bytes h = absurd cc
  with_bytes-eq-ok q qos (some b) bytes h = (cc, cc)

  with_bytes-eq-exception :
      (q : ℕ) (opt : Option Text) → with_bytes builder q opt ≡ exception → opt ≡ none
  with_bytes-eq-exception q none h = refl
  with_bytes-eq-exception q (some b) h = absurd cc

  -- What is prepared was checked and encoded, and an exception comes from a document that was checked
  -- and cannot be encoded.
  encoded-eq-ok :
      (checked : Result (ℕ × Json)) (qos : ℕ) (bytes : Text)
      → encoded builder checked ≡ returns (ok (qos, bytes))
      → (bson : Json) × (checked ≡ ok (qos, bson)) × (encode builder bson ≡ some bytes)
  unfolding encoded
  encoded-eq-ok (err e) qos bytes h = absurd cc
  encoded-eq-ok (ok (q, bson)) qos bytes h =
      let (same, e) = with_bytes-eq-ok q qos (encode builder bson) bytes h in
      (bson, ap (λ q'. ok (q', bson)) same, e)

  pub encoded-eq-exception :
      (checked : Result (ℕ × Json))
      → encoded builder checked ≡ exception
      → (qos : ℕ) × (bson : Json) × (checked ≡ ok (qos, bson)) × (encode builder bson ≡ none)
  unfolding encoded
  encoded-eq-exception (err e) h = absurd cc
  encoded-eq-exception (ok (q, bson)) h =
      (q, bson, refl, with_bytes-eq-exception q (encode builder bson) h)

  -- What the two methods prepare.
  pub prepared-IsPermitted :
      (checked : Result (ℕ × Json)) (Fits : Interface → Type 0) (document : Json)
      (device : DeviceMqtt) (name path : Text)
      → ((qos : ℕ) (bson : Json)
          → checked ≡ ok (qos, bson)
          → IsPermitted Fits device name path qos × (bson ≡ document))
      → ((qos : ℕ) (bytes : Text)
          → encoded builder checked ≡ returns (ok (qos, bytes))
          → IsPermitted Fits device name path qos × (encode builder document ≡ some bytes))
        × (encoded builder checked ≡ exception → encode builder document ≡ none)
  prepared-IsPermitted checked Fits document device name path law = (
    λ qos bytes h.
        let (bson, c, e) = encoded-eq-ok checked qos bytes h in
        let (permitted, same) = law qos bson c in
        (permitted, subst (λ j. encode builder j ≡ some bytes) same e),
    λ h.
        let (qos, bson, c, e) = encoded-eq-exception checked h in
        let (permitted, same) = law qos bson c in subst (λ j. encode builder j ≡ none) same e,
  )
