-- ===== src/Interface/Validation.antt =====
-- What `validate_individual` and `validate_object` accept.
use astarte_device_sdk_cpp.Base.{
  ◌≡◌, ◌↔◌, refl, Bool, true, false, Option, none, some, List, [], ◌∷◌, ◌++◌, Text, All, ok, ◌>>◌,
  reject_if, Error, arith, Bool-cases, >>=-eq-ok, inl, inr,
}
use astarte_device_sdk_cpp.Base.Int.{ℤ}
use astarte_device_sdk_cpp.Data.{Doubles, Data, get_type}
use astarte_device_sdk_cpp.Mapping.{Mapping, match_path, check_data_type}
use astarte_device_sdk_cpp.Mapping.Checking.{IsFinite, check_data_type_iff}
use astarte_device_sdk_cpp.Interface.{
  Interface, first_match, get_mapping, lacks_timestamp, has_unsupported_timestamp,
  validate_individual, validate_object,
}

-- The first mapping of a list whose endpoint matches the path.
pub data FirstMatch (path : Text) (m : Mapping) : List Mapping → Type 0 where
  here : {ms : List Mapping} → match_path m path ≡ true → FirstMatch path m (m ∷ ms)
  later :
      {n : Mapping} {ms : List Mapping}
      → match_path n path ≡ false
      → FirstMatch path m ms
      → FirstMatch path m (n ∷ ms)

first_match_sound :
    (path : Text) (m : Mapping) (ms : List Mapping)
    → first_match ms path ≡ ok m
    → FirstMatch path m ms
unfolding first_match
first_match_sound path m [] h = cc
first_match_sound path m (n ∷ ms) h = elim (Bool-cases (match_path n path)) [
  | inl e ↦ let same : n ≡ m = ground arith in rw same (here (rw same at e))
  | inr e ↦ later e (first_match_sound path m ms (ground arith))
]

first_match_complete :
    {path : Text} {m : Mapping} {ms : List Mapping}
    → FirstMatch path m ms
    → first_match ms path ≡ ok m
unfolding first_match
first_match_complete (here e) = rw e
first_match_complete (later e f) = rw e (first_match_complete f)

-- `get_mapping` returns a mapping exactly when it is the first that matches the path.
pub get_mapping_iff :
    (i : Interface) (path : Text) (m : Mapping)
    → (get_mapping i path ≡ ok m) ↔ FirstMatch path m i.mappings
unfolding get_mapping
get_mapping_iff i path m = (first_match_sound path m i.mappings, first_match_complete)

-- An explicit timestamp is given where the mapping requires one, and none where it forbids one.
abbrev pub FitsTimestamp : Option Bool → Option ℤ → Type 0
FitsTimestamp (some true) none = ⊥
FitsTimestamp (some false) (some t) = ⊥
FitsTimestamp _ _ = Unit

-- A datum that an interface takes at a path.
pub record Conforms (d : Doubles) (i : Interface) (path : Text) (v : Data d.Double) (t : Option ℤ)
    : Type 0 where
  pub mapping : Mapping
  pub chosen : FirstMatch path mapping i.mappings
  pub typed : mapping.type ≡ get_type v
  pub finite : IsFinite d v
  pub stamped : FitsTimestamp mapping.explicit_timestamp t

module _ (d : Doubles) where
  open d use {Double}

  timestamp_iff :
      (e : Option Bool) (t : Option ℤ)
      → ((reject_if (lacks_timestamp e t) Error.interface_validation_error
            >> (reject_if (has_unsupported_timestamp e t) Error.interface_validation_error
                >> ok (tt {0})))
          ≡ ok (tt {0}))
        ↔ FitsTimestamp e t
  timestamp_iff none none = ground arith
  timestamp_iff none (some t) = ground arith
  timestamp_iff (some true) none = ground arith
  timestamp_iff (some true) (some t) = ground arith
  timestamp_iff (some false) none = ground arith
  timestamp_iff (some false) (some t) = ground arith

  validate_sound :
      (i : Interface) (path : Text) (v : Data Double) (t : Option ℤ)
      → validate_individual d i path v t ≡ ok tt
      → Conforms d i path v t
  unfolding validate_individual
  validate_sound i path v t h =
      let (m, found, rest) = >>=-eq-ok (get_mapping i path) _ h in
      let (u, checked, stamped) = >>=-eq-ok (check_data_type d m v) _ rest in
      let (typed, finite) = (check_data_type_iff d m v).0 checked in
      record {
        mapping = m;
        chosen = (get_mapping_iff i path m).0 found;
        typed = typed;
        finite = finite;
        stamped = (timestamp_iff m.explicit_timestamp t).0 stamped;
      }

  validate_complete :
      (i : Interface) (path : Text) (v : Data Double) (t : Option ℤ)
      → Conforms d i path v t
      → validate_individual d i path v t ≡ ok tt
  unfolding validate_individual
  validate_complete i path v t c =
      rw
        (
          (get_mapping_iff i path c.mapping).1 c.chosen,
          (check_data_type_iff d c.mapping v).1 (c.typed, c.finite),
        )
        ((timestamp_iff c.mapping.explicit_timestamp t).1 c.stamped)

  -- A datum is accepted exactly when some mapping matches its path, the first such has its type,
  -- its doubles are finite, and a timestamp is given as that mapping's `explicit_timestamp` wants.
  pub validate_individual_iff :
      (i : Interface) (path : Text) (v : Data Double) (t : Option ℤ)
      → (validate_individual d i path v t ≡ ok tt) ↔ Conforms d i path v t
  validate_individual_iff i path v t = (validate_sound i path v t, validate_complete i path v t)

  -- An object is accepted exactly when each entry is accepted at the common path, a slash and the
  -- entry's key.
  pub validate_object_iff :
      (i : Interface) (path : Text) (object : List (Text × Data Double)) (t : Option ℤ)
      → (validate_object d i path object t ≡ ok tt)
        ↔ All (λ entry. Conforms d i (path ++ b'/' ∷ entry.0) entry.1 t) object
  unfolding validate_object
  validate_object_iff i path [] t = (λ e. tt, λ h. refl)
  validate_object_iff i path ((key, v) ∷ object) t = (
    λ h.
        let (u, first, rest) = >>=-eq-ok (validate_individual d i (path ++ b'/' ∷ key) v t) _ h in
        (validate_sound i _ v t first, (validate_object_iff i path object t).0 rest),
    λ c. rw (validate_complete i _ v t c.0) ((validate_object_iff i path object t).1 c.1),
  )
