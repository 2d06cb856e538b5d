-- ===== src/Policies/InterfaceAggregation.antt =====
-- The class `InterfaceAggregation`.
use astarte_device_sdk_cpp.Base.{
  ◌≡◌, ◌↔◌, Bool, Text, codes, text_eq, text_eq_iff, if◌then◌else◌, Result, ok, err, Error, arith,
  true, false,
}

pub data InterfaceAggregation : Type 0 where
  individual object : InterfaceAggregation

pub to_string : InterfaceAggregation → Text
to_string individual = codes "individual"
to_string object = codes "object"

unfoldable pub try_from_str : Text → Result InterfaceAggregation
try_from_str str =
    if text_eq str (codes "individual")
    then ok individual
    else if text_eq str (codes "object")
    then ok object
    else err Error.invalid_interface_aggregation

unfoldable pub is_individual : InterfaceAggregation → Bool
is_individual individual = true
is_individual object = false

-- A text is read as an aggregation exactly when it is that one's name.
pub try_from_str_iff :
    (s : Text) (v : InterfaceAggregation) → (try_from_str s ≡ ok v) ↔ (s ≡ to_string v)
unfolding try_from_str to_string
try_from_str_iff s individual =
    ground (arith, text_eq_iff s (codes "individual"), text_eq_iff s (codes "object"))
try_from_str_iff s object =
    ground (arith, text_eq_iff s (codes "individual"), text_eq_iff s (codes "object"))
