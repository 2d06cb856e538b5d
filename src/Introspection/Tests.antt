-- ===== src/Introspection/Tests.antt =====
-- A newer version takes an interface's place, an older one does not.
use astarte_device_sdk_cpp.Base.{◌≡◌, refl, [], ◌∷◌, codes, text_eq, ok, err, Error}
use astarte_device_sdk_cpp.Data.{same_owner}
use astarte_device_sdk_cpp.Policies.InterfaceType.{same_interface_type}
use astarte_device_sdk_cpp.Interface.{Interface}
use astarte_device_sdk_cpp.OrderedMap.{find, insert_or_assign}
use astarte_device_sdk_cpp.Introspection.{Introspection, replacement_error, checked_insert, get}
use astarte_device_sdk_cpp.Introspection.Versions.{Supersedes, insert_all, insert_all-Supersedes}
use astarte_device_sdk_cpp.Examples.Facts.{stored}
use astarte_device_sdk_cpp.Examples.{values_interface, newer_interface, introspection}

abbrev newer : Introspection
newer = (checked_insert introspection newer_interface).0

downgrade : (checked_insert newer values_interface).1 ≡ err Error.invalid_interface_version
unfolding checked_insert find insert_or_assign text_eq replacement_error same_owner
    same_interface_type
downgrade = refl

insert_all-Supersedes_example :
    (now : Interface) × (get
        (insert_all introspection (newer_interface ∷ values_interface ∷ []))
        (codes "a.B")
      ≡ ok now)
    × Supersedes values_interface now
insert_all-Supersedes_example =
    insert_all-Supersedes introspection (newer_interface ∷ values_interface ∷ []) values_interface
      (codes "a.B") stored
