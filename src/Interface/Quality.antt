-- ===== src/Interface/Quality.antt =====
-- The quality of service under which a datum is published.
use astarte_device_sdk_cpp.Base.{
  ℕ, ◌≤◌, ◌≡◌, ◌≢◌, refl, Option, none, some, List, [], ◌∷◌, Text, All, Result, ok, err, Error,
  arith,
}
use astarte_device_sdk_cpp.Base.Int.{ℤ}
use astarte_device_sdk_cpp.Data.{Doubles, Data}
use astarte_device_sdk_cpp.Policies.Reliability.{Reliability, get_qos-le}
use astarte_device_sdk_cpp.Policies.Reliability
use astarte_device_sdk_cpp.Policies.InterfaceAggregation.{
  InterfaceAggregation, individual, object, is_individual,
}
use astarte_device_sdk_cpp.Mapping.{Mapping}
use astarte_device_sdk_cpp.Interface.{Interface, qos_mapping, get_qos, validate_individual}
use astarte_device_sdk_cpp.Interface.Validation.{
  FirstMatch, here, later, Conforms, get_mapping_iff, validate_individual_iff,
}
use astarte_device_sdk_cpp.Interface.Parse.Laws.{HasReliability, IsWellFormed}

chosen-All :
    {path : Text} {m : Mapping} (P : Mapping → Type 0) {ms : List Mapping}
    → FirstMatch path m ms
    → All P ms
    → P m
chosen-All P (here e) h = h.0
chosen-All P (later e f) h = chosen-All P f h.1

-- The mapping that gives the quality of service is one of the interface's.
abbrev Chosen : Interface → Text → Type 0
Chosen i path = (m : Mapping) × (qos_mapping i path ≡ ok m) × HasReliability m

first-Chosen :
    (ms : List Mapping)
    → ms ≢ []
    → All HasReliability ms
    → (m : Mapping) × (elim ms as (λ _. Result Mapping) [ [] ↦ err Error.mqtt_error | m ∷ _ ↦ ok m ]
        ≡ ok m)
      × HasReliability m
first-Chosen [] ne h = absurd (ne refl)
first-Chosen (m ∷ ms) ne h = (m, refl, h.0)

aggregation-Chosen :
    (i : Interface) (path : Text) (m : Mapping) (a : Option InterfaceAggregation)
    → IsWellFormed i
    → FirstMatch path m i.mappings
    → i.aggregation ≡ a
    → Chosen i path
unfolding qos_mapping is_individual
aggregation-Chosen i path m none w f e = (
  m,
  rw (e, qos_mapping) ((get_mapping_iff i path m).1 f),
  chosen-All HasReliability f w.reliable,
)
aggregation-Chosen i path m (some individual) w f e = (
  m,
  rw (e, qos_mapping) ((get_mapping_iff i path m).1 f),
  chosen-All HasReliability f w.reliable,
)
aggregation-Chosen i path m (some object) w f e =
    let (n, first, r) = first-Chosen i.mappings w.has_mappings w.reliable in
    (n, rw (e, qos_mapping) first, r)

get_qos_at :
    (i : Interface) (path : Text) (m : Mapping) (r : Reliability)
    → qos_mapping i path ≡ ok m
    → m.reliability ≡ some r
    → get_qos i path ≡ ok (Reliability.get_qos r)
unfolding get_qos
get_qos_at i path m r found e = rw (found, get_qos) (rw e)

module _ (d : Doubles) where
  open d use {Double}

  -- For an interface read from JSON, a datum that passed validation has a quality of service, and
  -- it is 0, 1 or 2: the two failures of `get_qos` cannot follow a validation.
  pub get_qos_of_validated :
      (i : Interface) (path : Text) (v : Data Double) (t : Option ℤ)
      → IsWellFormed i
      → validate_individual d i path v t ≡ ok tt
      → (q : ℕ) × (get_qos i path ≡ ok q) × (q ≤ 2)
  get_qos_of_validated i path v t w h =
      let c = (validate_individual_iff d i path v t).0 h in
      let (m, found, (r, reliable)) =
        aggregation-Chosen i path c.mapping i.aggregation w c.chosen refl in
      (Reliability.get_qos r, get_qos_at i path m r found reliable, get_qos-le r)

  -- Unless the interface is aggregated as an object, that is the reliability of the very mapping
  -- that the datum was validated against.
  pub get_qos_individual :
      (i : Interface) (path : Text) (v : Data Double) (t : Option ℤ) (r : Reliability)
      (c : Conforms d i path v t)
      → i.aggregation ≢ some object
      → c.mapping.reliability ≡ some r
      → get_qos i path ≡ ok (Reliability.get_qos r)
  unfolding get_qos qos_mapping is_individual
  get_qos_individual i path v t r c ne e =
      ground (arith, (get_mapping_iff i path c.mapping).1 c.chosen)
