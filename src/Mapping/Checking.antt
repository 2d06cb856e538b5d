-- ===== src/Mapping/Checking.antt =====
-- What `check_data_type` accepts.
use astarte_device_sdk_cpp.Base.{◌≡◌, ◌↔◌, refl, true, List, [], ◌∷◌, all, All, ok, arith}
use astarte_device_sdk_cpp.Data.{
  AstarteType, Doubles, Data, float64, float64s, get_type, same_type_iff,
}
use astarte_device_sdk_cpp.Mapping.{Mapping, check_data_type}

module _ (d : Doubles) where
  open d use {Double, is_finite}

  -- A double is finite, and so is each of an array; other data is as it is.
  abbrev pub IsFinite : Data Double → Type 0
  IsFinite (float64 x) = is_finite x ≡ true
  IsFinite (float64s xs) = All (λ x. is_finite x ≡ true) xs
  IsFinite _ = Unit

  all_iff : (xs : List Double) → (all is_finite xs ≡ true) ↔ All (λ x. is_finite x ≡ true) xs
  all_iff [] = (λ e. tt, λ h. refl)
  all_iff (x ∷ xs) = ground (arith, all_iff xs)

  -- Data passes exactly when its type is the mapping's and every double in it is finite.
  pub check_data_type_iff :
      (m : Mapping) (v : Data Double)
      → (check_data_type d m v ≡ ok tt) ↔ ((m.type ≡ get_type v) × IsFinite v)
  unfolding check_data_type get_type
  check_data_type_iff m (float64 x) = ground (
    arith,
    same_type_iff m.type AstarteType.double,
    same_type_iff m.type AstarteType.double_array,
  )
  check_data_type_iff m (float64s xs) = ground (
    arith,
    all_iff xs,
    same_type_iff m.type AstarteType.double,
    same_type_iff m.type AstarteType.double_array,
  )
  check_data_type_iff m v = ground (arith, same_type_iff m.type (get_type v))
