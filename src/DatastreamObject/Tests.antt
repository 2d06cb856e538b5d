-- ===== src/DatastreamObject/Tests.antt =====
-- An object that is read, and changed by three calls.
use astarte_device_sdk_cpp.Base.{ℕ, ◌≡◌, refl, some, List, [], ◌∷◌, Text, text_eq, codes}
use astarte_device_sdk_cpp.DatastreamObject.{DatastreamObject, find, insert, insert_all, from_list}
use astarte_device_sdk_cpp.DatastreamObject.Lookup.{IsDistinct}
use astarte_device_sdk_cpp.DatastreamObject.Runs.{
  Operation, inserts, erases, run, replay, lookups, run-refines,
}

abbrev one_way : DatastreamObject ℕ
one_way = (codes "/a", 1) ∷ (codes "/b", 2) ∷ []

abbrev twice : List (Text × ℕ)
twice = (codes "/a", 1) ∷ (codes "/a", 2) ∷ []

one_way-IsDistinct : IsDistinct one_way
one_way-IsDistinct = unfold find text_eq in (refl, (refl, tt))

-- The second value for the same key is not taken.
first_is_kept : find (codes "/a") (from_list twice) ≡ some 1
unfolding find insert_all insert text_eq
first_is_kept = refl

abbrev operations : List (Operation ℕ)
operations = inserts (codes "/a") 3 ∷ erases (codes "/b") ∷ inserts (codes "/b") 4 ∷ []

run-refines_example :
    IsDistinct (run operations one_way)
    × ((key : Text) → find key (run operations one_way) ≡ replay operations (lookups one_way) key)
run-refines_example = run-refines operations one_way one_way-IsDistinct
