-- ===== src/DeviceMqtt/Interfaces.antt =====
-- What `add_interface_from_str` keeps of the introspection.
use astarte_device_sdk_cpp.Base.{
  ◌≡◌, ◌⊎◌, inl, inr, Bool-cases, if◌then◌else◌, refl, Option, none, some, List, [], ◌∷◌, Text, All,
  Result, ok, err, Error, arith,
}
use astarte_device_sdk_cpp.Json.{JsonLibrary}
use astarte_device_sdk_cpp.Interface.{Interface}
use astarte_device_sdk_cpp.Interface.Parse.{try_from_json}
use astarte_device_sdk_cpp.Interface.Parse.Laws.{IsWellFormed, try_from_json-IsWellFormed}
use astarte_device_sdk_cpp.OrderedMap.{insert_or_assign}
use astarte_device_sdk_cpp.Introspection.{Introspection, checked_insert, get}
use astarte_device_sdk_cpp.Introspection.Versions.{
  Supersedes, Supersedes-refl, IsWellKept, checked_insert-IsWellKept, step_superseded,
}
use astarte_device_sdk_cpp.Persistence.{FileSystem, Files}
use astarte_device_sdk_cpp.DeviceMqtt.{
  DeviceMqtt, insert_read, interface_from_str, add_interface_from_str, add_interface_from_file,
}

-- A device whose introspection is in order, and holds only interfaces such as are read from JSON.
pub record IsSound (device : DeviceMqtt) : Type 0 where
  pub kept : IsWellKept device.introspection
  pub formed : All (λ entry. IsWellFormed entry.1) device.introspection.interfaces

insert-formed :
    (name : Text) (i : Interface) (entries : List (Text × Interface))
    → IsWellFormed i
    → All (λ entry. IsWellFormed entry.1) entries
    → All (λ entry. IsWellFormed entry.1) (insert_or_assign name i entries)
unfolding insert_or_assign
insert-formed name i [] w h = (w, tt)
insert-formed name i ((k, v) ∷ entries) w (h, hs) =
    ground (arith, insert-formed name i entries w hs)

checked_insert-formed :
    (s : Introspection) (i : Interface)
    → IsWellFormed i
    → All (λ entry. IsWellFormed entry.1) s.interfaces
    → All (λ entry. IsWellFormed entry.1) (checked_insert s i).0.interfaces
unfolding checked_insert
checked_insert-formed s i w h = ground (arith, insert-formed i.interface_name i s.interfaces w h)

insert_read-IsSound :
    (device : DeviceMqtt) (read : Result Interface)
    → ((i : Interface) → read ≡ ok i → IsWellFormed i)
    → IsSound device
    → IsSound (insert_read device read).0
unfolding insert_read
insert_read-IsSound device (err e) formed w = w
insert_read-IsSound device (ok i) formed w = record {
  kept = checked_insert-IsWellKept device.introspection i w.kept;
  formed = checked_insert-formed device.introspection i (formed i refl) w.formed;
}

insert_read-Supersedes :
    (device : DeviceMqtt) (read : Result Interface) (name : Text) (old : Interface)
    → get device.introspection name ≡ ok old
    → ((now : Interface) × (get (insert_read device read).0.introspection name ≡ ok now)
        × Supersedes old now)
      × ((insert_read device read).0.session ≡ device.session)
unfolding insert_read
insert_read-Supersedes device (err e) name old h = ((old, h, Supersedes-refl old), refl)
insert_read-Supersedes device (ok i) name old h =
    (step_superseded device.introspection i old name h, refl)

module _ (lib : JsonLibrary) (parse : Text → Option lib.Json) where
  interface_from_str-IsWellFormed :
      (text : Text) (i : Interface) → interface_from_str lib parse text ≡ ok i → IsWellFormed i
  unfolding interface_from_str
  interface_from_str-IsWellFormed text i h = from_parsed (parse text) h
    where
      from_parsed :
          (parsed : Option lib.Json)
          → elim parsed as (λ _. Result Interface) [
            | none ↦ err Error.json_parsing_error
            | some interface_json ↦ try_from_json lib interface_json
          ]
            ≡ ok i
          → IsWellFormed i
      from_parsed none h = absurd cc
      from_parsed (some j) h = try_from_json-IsWellFormed lib j i h

  -- Whatever text is added, well-formed or not, the introspection stays in order by name, without
  -- duplicates, and holds only interfaces with a mapping, bounded versions and reliabilities.
  pub add_interface_from_str-IsSound :
      (device : DeviceMqtt) (text : Text)
      → IsSound device
      → IsSound (add_interface_from_str lib parse device text).0
  unfolding add_interface_from_str
  add_interface_from_str-IsSound device text w =
      insert_read-IsSound device (interface_from_str lib parse text)
        (interface_from_str-IsWellFormed text) w

  -- Adding an interface never takes one away: what the device supported under a name it supports
  -- still, with the same owner and type and a version that is not lower, and its session is the same.
  pub add_interface_from_str-Supersedes :
      (device : DeviceMqtt) (text name : Text) (old : Interface)
      → get device.introspection name ≡ ok old
      → ((now : Interface) × (get
              (add_interface_from_str lib parse device text).0.introspection
              name
            ≡ ok now)
          × Supersedes old now)
        × ((add_interface_from_str lib parse device text).0.session ≡ device.session)
  unfolding add_interface_from_str
  add_interface_from_str-Supersedes device text name old h =
      insert_read-Supersedes device (interface_from_str lib parse text) name old h

  -- Adding the interface of a file changes nothing, or adds that of the file's text.
  pub add_interface_from_file-cases :
      (fs : FileSystem) (files : Files) (device : DeviceMqtt) (path : Text)
      → ((add_interface_from_file lib parse fs files device path).0 ≡ device)
        ⊎ ((text : Text) × ((add_interface_from_file lib parse fs files device path).0
              ≡ (add_interface_from_str lib parse device text).0))
  unfolding add_interface_from_file
  add_interface_from_file-cases fs files device path = from_content (files path)
    where
      Same : DeviceMqtt → Type 0
      Same device' =
          (device' ≡ device)
          ⊎ ((text : Text) × (device' ≡ (add_interface_from_str lib parse device text).0))

      from_content :
          (content : Option Text)
          → Same
              (elim content as (λ _. DeviceMqtt × Result (Unit {0})) [
                | none ↦ (device, err Error.file_open_error)
                | some text ↦
                    if fs.opens_to_read path
                    then add_interface_from_str lib parse device text
                    else (device, err Error.file_open_error)
              ]).0
      from_content none = inl refl
      from_content (some text) = elim (Bool-cases (fs.opens_to_read path)) [
        | inl e ↦ rw e (inr (text, refl))
        | inr e ↦ rw e (inl refl)
      ]
