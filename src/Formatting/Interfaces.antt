-- ===== src/Formatting/Interfaces.antt =====
-- The formatters of interfaces and mappings: private/mqtt/interface.hpp and mapping.hpp. The printing
-- of a signed number is a parameter.
use astarte_device_sdk_cpp.Base.{Option, none, some, Text, codes, ◌++◌, []}
use astarte_device_sdk_cpp.Base.Int.{ℤ}
use astarte_device_sdk_cpp.Data.Names.{format_type, format_ownership}
use astarte_device_sdk_cpp.Decimal.{to_decimal}
use astarte_device_sdk_cpp.Policies.Reliability
use astarte_device_sdk_cpp.Policies.Retention
use astarte_device_sdk_cpp.Policies.DatabaseRetentionPolicy
use astarte_device_sdk_cpp.Policies.InterfaceType
use astarte_device_sdk_cpp.Policies.InterfaceAggregation
use astarte_device_sdk_cpp.Mapping.{Mapping}
use astarte_device_sdk_cpp.Interface.{Interface}
use astarte_device_sdk_cpp.Formatting.{format_bool, format_vector}

abbrev pub plain : Text → Text
plain s = s

abbrev pub whole_line : Text → Text
whole_line s = s ++ codes "\n"

-- The label and the value, where there is one.
unfoldable pub optional_field : {T : Type 0} → Text → (T → Text) → Option T → Text
optional_field label print none = []
optional_field label print (some val) = label ++ print val

module _ (of_int : ℤ → Text) where
  unfoldable pub format_mapping : Mapping → Text
  format_mapping mapping =
      codes "Mapping {"
      ++ codes "endpoint: "
      ++ mapping.endpoint
      ++ codes ", type: "
      ++ format_type mapping.type
      ++ optional_field (codes ", explicit_timestamp: ") format_bool mapping.explicit_timestamp
      ++ optional_field (codes ", reliability: ") Reliability.to_string mapping.reliability
      ++ optional_field (codes ", retention: ") Retention.to_string mapping.retention
      ++ optional_field (codes ", expiry: ") of_int mapping.expiry
      ++ optional_field (codes ", database_retention_policy: ") DatabaseRetentionPolicy.to_string
          mapping.database_retention_policy
      ++ optional_field (codes ", database_retention_ttl: ") of_int mapping.database_retention_ttl
      ++ optional_field (codes ", allow_unset: ") format_bool mapping.allow_unset
      ++ optional_field (codes ", description: ") plain mapping.description
      ++ optional_field (codes ", doc: ") plain mapping.doc
      ++ codes "}"

  unfoldable pub format_interface : Interface → Text
  format_interface interface =
      codes "Interface {\n"
      ++ codes "  interface name: "
      ++ whole_line interface.interface_name
      ++ codes "  major version: "
      ++ whole_line (to_decimal interface.version_major)
      ++ codes "  minor version: "
      ++ whole_line (to_decimal interface.version_minor)
      ++ codes "  interface type: "
      ++ whole_line (InterfaceType.to_string interface.interface_type)
      ++ codes "  ownership: "
      ++ whole_line (format_ownership interface.ownership)
      ++ optional_field (codes "  aggregation: ")
          (λ aggr. whole_line (InterfaceAggregation.to_string aggr)) interface.aggregation
      ++ optional_field (codes "  description: ") whole_line interface.description
      ++ optional_field (codes "  doc: ") whole_line interface.doc
      ++ codes "  mappings: "
      ++ format_vector format_mapping interface.mappings
      ++ codes "\n"
      ++ codes "}\n"
