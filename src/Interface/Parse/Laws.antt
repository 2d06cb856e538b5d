-- ===== src/Interface/Parse/Laws.antt =====
-- What holds of every interface that `try_from_json` accepts.
use astarte_device_sdk_cpp.Base.{
  ℕ, ◌<◌, ◌^◌, ◌≡◌, ◌≢◌, ◌↔◌, false, some, List, [], ◌∷◌, Text, codes, is_empty, All, ok, >>=-eq-ok,
  arith, ok-injective, reject_if-eq-ok, subst,
}
use astarte_device_sdk_cpp.Base.Int.{ℤ, pos, negsuc}
use astarte_device_sdk_cpp.Json.{JsonLibrary, Kind, get_field}
use astarte_device_sdk_cpp.Policies.Reliability.{Reliability}
use astarte_device_sdk_cpp.Mapping.{Mapping}
use astarte_device_sdk_cpp.Mapping
use astarte_device_sdk_cpp.Interface.{Interface}
use astarte_device_sdk_cpp.Interface.Parse.{
  convert_version, parse_version_field, parse_interface_type, parse_ownership, parse_aggregation,
  mappings_from, mappings_from_interface_json, try_from_json,
}

-- A version is converted exactly when it is neither negative nor beyond 32 bits, and is kept.
pub convert_version_iff :
    (v : ℤ) (n : ℕ) → (convert_version v ≡ ok n) ↔ ((v ≡ pos n) × (n < 2 ^ 32))
unfolding convert_version
convert_version_iff (pos m) n = ground arith
convert_version_iff (negsuc m) n = ground arith

abbrev pub HasReliability : Mapping → Type 0
HasReliability m = (r : Reliability) × (m.reliability ≡ some r)

-- Versions of 32 bits, at least one mapping, and a reliability in each.
pub record IsWellFormed (i : Interface) : Type 0 where
  pub major_bounded : i.version_major < 2 ^ 32
  pub minor_bounded : i.version_minor < 2 ^ 32
  pub has_mappings : i.mappings ≢ []
  pub reliable : All HasReliability i.mappings

is_empty-ne : (ms : List Mapping) → is_empty ms ≡ false → ms ≢ []
is_empty-ne [] h = cc
is_empty-ne (m ∷ ms) h = λ e. cc

module _ (lib : JsonLibrary) where
  open lib use {Json, get_int64}

  mapping-HasReliability :
      (j : Json) (m : Mapping) → Mapping.try_from_json lib j ≡ ok m → HasReliability m
  unfolding Mapping.try_from_json
  mapping-HasReliability j m h = (Mapping.reliability_or_default m.reliability, ground arith)

  mappings-reliable :
      (js : List Json) (ms : List Mapping) → mappings_from lib js ≡ ok ms → All HasReliability ms
  unfolding mappings_from
  mappings-reliable [] ms h = subst (All HasReliability) (ok-injective h) tt
  mappings-reliable (j ∷ js) ms h =
      let (m, first, rest) = >>=-eq-ok (Mapping.try_from_json lib j) _ h in
      let (ms', others, last) = >>=-eq-ok (mappings_from lib js) _ rest in
      subst (All HasReliability) (ok-injective last)
        (mapping-HasReliability j m first, mappings-reliable js ms' others)

  interface_mappings-reliable :
      (j : Json) (ms : List Mapping)
      → mappings_from_interface_json lib j ≡ ok ms
      → All HasReliability ms
  unfolding mappings_from_interface_json
  interface_mappings-reliable j ms h =
      let (field, found, rest) = >>=-eq-ok (get_field lib j (codes "mappings") Kind.array) _ h in
      mappings-reliable _ ms rest

  version_bounded :
      (j : Json) (key : Text) (n : ℕ) → parse_version_field lib j key ≡ ok n → n < 2 ^ 32
  unfolding parse_version_field
  version_bounded j key n h =
      let (field, found, converted) = >>=-eq-ok (get_field lib j key Kind.number_integer) _ h in
      ((convert_version_iff (get_int64 field) n).0 converted).1

  -- An interface that is read from JSON has versions of 32 bits, at least one mapping, and a
  -- reliability, so a quality of service, in each mapping.
  pub try_from_json-IsWellFormed :
      (j : Json) (i : Interface) → try_from_json lib j ≡ ok i → IsWellFormed i
  unfolding try_from_json
  try_from_json-IsWellFormed j i h =
      let (_, _, h1) = >>=-eq-ok (get_field lib j (codes "interface_name") Kind.string) _ h in
      let (major, e_major, h2) =
        >>=-eq-ok (parse_version_field lib j (codes "version_major")) _ h1 in
      let (minor, e_minor, h3) =
        >>=-eq-ok (parse_version_field lib j (codes "version_minor")) _ h2 in
      let (_, _, h4) = >>=-eq-ok (parse_interface_type lib j) _ h3 in
      let (_, _, h5) = >>=-eq-ok (parse_ownership lib j) _ h4 in
      let (_, _, h6) = >>=-eq-ok (parse_aggregation lib j) _ h5 in
      let (ms, e_mappings, h7) = >>=-eq-ok (mappings_from_interface_json lib j) _ h6 in
      let (full, last) = reject_if-eq-ok (is_empty ms) _ _ h7 in
      subst IsWellFormed (ok-injective last) (record {
        major_bounded = version_bounded j _ major e_major;
        minor_bounded = version_bounded j _ minor e_minor;
        has_mappings = is_empty-ne ms full;
        reliable = interface_mappings-reliable j ms e_mappings;
      })
