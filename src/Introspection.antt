-- ===== src/Introspection.antt =====
-- src/mqtt/introspection.cpp: the interfaces that a device supports, by name. Every method holds
-- the lock for its whole body, so each is one step on the map; the shared pointers to constant
-- interfaces are the interfaces.
pub mod Versions
pub mod Tests
use astarte_device_sdk_cpp.Base.{
  ℕ, Bool, true, false, not, ◌&&◌, Option, none, some, List, [], ◌∷◌, map, Text, ltb, ◌==◌,
  if◌then◌else◌, Result, ok, err, Error,
}
use astarte_device_sdk_cpp.Data.{Ownership, same_owner}
use astarte_device_sdk_cpp.Policies.InterfaceType.{InterfaceType, same_interface_type}
use astarte_device_sdk_cpp.Interface.{Interface}
use astarte_device_sdk_cpp.OrderedMap.{find, insert_or_assign}

pub record Introspection : Type 0 where
  pub interfaces : List (Text × Interface)

abbrev pub empty : Introspection
empty = record { interfaces = [] }

abbrev pub store : Introspection → Interface → Introspection
store s interface = record s {
  interfaces = insert_or_assign interface.interface_name interface s.interfaces;
}

-- What the checks of `checked_insert` find wrong with a new interface of a stored one's name.
unfoldable pub replacement_error : Interface → Interface → Option Error
replacement_error stored interface =
    if not (same_owner stored.ownership interface.ownership)
    then some Error.invalid_interface_ownership
    else if not (same_interface_type stored.interface_type interface.interface_type)
    then some Error.invalid_astarte_type
    else if ltb interface.version_major stored.version_major
    then some Error.invalid_interface_version
    else if interface.version_major == stored.version_major
        && ltb interface.version_minor stored.version_minor
    then some Error.invalid_interface_version
    else none

unfoldable pub checked_insert : Introspection → Interface → Introspection × Result (Unit {0})
checked_insert s interface = elim (find interface.interface_name s.interfaces) [
  | none ↦ (store s interface, ok tt)
  | some stored ↦ elim (replacement_error stored interface) [
    | some e ↦ (s, err e)
    | none ↦ (store s interface, ok tt)
  ]
]

unfoldable pub values : Introspection → List Interface
values s = map (λ entry. entry.1) s.interfaces

unfoldable pub get : Introspection → Text → Result Interface
get s interface_name = elim (find interface_name s.interfaces) [
  | none ↦ err Error.mqtt_error
  | some interface ↦ ok interface
]
