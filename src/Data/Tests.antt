-- ===== src/Data/Tests.antt =====
-- Names that are read, and one that is not.
use astarte_device_sdk_cpp.Base.{some, Text, ◌≡◌, refl, ◌↔◌, codes, text_eq, ok, err, Error}
use astarte_device_sdk_cpp.Data.Names.{astarte_type_from_str}
use astarte_device_sdk_cpp.Policies.InterfaceType.{datastream, property, try_from_str-to_string_iff}
use astarte_device_sdk_cpp.Policies.InterfaceType
use astarte_device_sdk_cpp.Data.{AstarteType, Data, get_type, text}
use astarte_device_sdk_cpp.Data.Accessors.{try_into, make, get_type_iff}

abbrev greeting : Data Text
greeting = text (codes "hi")

get_type_iff_example :
    ((get_type greeting ≡ AstarteType.string)
      ↔ ((y : Text) × (try_into AstarteType.string greeting ≡ some y)))
    × ((try_into AstarteType.string greeting ≡ some (codes "hi"))
        ↔ (greeting ≡ make AstarteType.string (codes "hi")))
get_type_iff_example = get_type_iff AstarteType.string greeting (codes "hi")

printed_type : astarte_type_from_str (codes "Double") ≡ err Error.invalid_astarte_type
unfolding astarte_type_from_str text_eq
printed_type = refl

try_from_str-to_string_iff_example :
    (InterfaceType.try_from_str (InterfaceType.to_string property) ≡ ok property)
    ↔ (property ≡ datastream)
try_from_str-to_string_iff_example = try_from_str-to_string_iff property
