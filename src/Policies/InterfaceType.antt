-- ===== src/Policies/InterfaceType.antt =====
-- The class `InterfaceType`. The name that is printed is not always the one that is read.
use astarte_device_sdk_cpp.Base.{
  ◌≡◌, ◌↔◌, refl, Bool, Text, codes, text_eq, if◌then◌else◌, Result, ok, err, Error, arith, true,
  false,
}

pub data InterfaceType : Type 0 where
  datastream property : InterfaceType

pub to_string : InterfaceType → Text
to_string datastream = codes "datastream"
to_string property = codes "property"

unfoldable pub try_from_str : Text → Result InterfaceType
try_from_str str =
    if text_eq str (codes "datastream")
    then ok datastream
    else if text_eq str (codes "properties")
    then ok property
    else err Error.invalid_interface_type

-- A type is read back from its printed name exactly when it is a datastream: a property interface
-- prints as "property" and is read from "properties".
pub try_from_str-to_string_iff :
    (t : InterfaceType) → (try_from_str (to_string t) ≡ ok t) ↔ (t ≡ datastream)
unfolding try_from_str to_string text_eq
try_from_str-to_string_iff datastream = ground arith
try_from_str-to_string_iff property = ground arith

unfoldable pub same_interface_type : InterfaceType → InterfaceType → Bool
same_interface_type datastream datastream = true
same_interface_type property property = true
same_interface_type _ _ = false

pub same_interface_type_iff : (a b : InterfaceType) → (same_interface_type a b ≡ true) ↔ (a ≡ b)
unfolding same_interface_type
same_interface_type_iff datastream datastream = (λ e. refl, λ e. refl)
same_interface_type_iff a b = ground arith
