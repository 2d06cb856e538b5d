-- ===== src/DatastreamObject.antt =====
-- src/object.cpp: the entries of an object, in a `std::unordered_map`. The map is the list of its
-- entries in the order of iteration, which is any order, with each key once.
pub mod Lookup
pub mod Domain
pub mod Equality
pub mod Runs
pub mod Tests
use astarte_device_sdk_cpp.Base.{
  ℕ, ◌+◌, Bool, true, false, not, ◌&&◌, ◌==◌, Option, none, some, List, [], ◌∷◌, ◌++◌, Text,
  text_eq, length, is_empty, if◌then◌else◌,
}

abbrev pub DatastreamObject : Type 0 → Type 0
DatastreamObject V = List (Text × V)

module _ {V : Type 0} where
  -- `find`, and `at`, which throws where there is none.
  unfoldable pub find : Text → DatastreamObject V → Option V
  find key [] = none
  find key ((k, value) ∷ entries) = if text_eq key k then some value else find key entries

  abbrev pub at : Text → DatastreamObject V → Option V
  at key object = find key object

  -- `insert` of the map: an entry that is there stays as it is.
  abbrev insert_new : Text → V → DatastreamObject V → Option V → DatastreamObject V
  insert_new key value object none = (key, value) ∷ object
  insert_new key value object (some present) = object

  unfoldable pub insert : Text → V → DatastreamObject V → DatastreamObject V
  insert key value object = insert_new key value object (find key object)

  -- The object without the key.
  unfoldable pub without : Text → DatastreamObject V → DatastreamObject V
  without key [] = []
  without key ((k, value) ∷ entries) =
      let rest = without key entries in if text_eq key k then rest else (k, value) ∷ rest

  -- `erase`, with the number of entries that were erased.
  abbrev erased : Option V → ℕ
  erased none = 0
  erased (some value) = 1

  unfoldable pub erase : Text → DatastreamObject V → DatastreamObject V × ℕ
  erase key object = (without key object, erased (find key object))

  abbrev pub size : DatastreamObject V → ℕ
  size object = length object

  abbrev pub empty : DatastreamObject V → Bool
  empty object = is_empty object

  abbrev pub clear : DatastreamObject V → DatastreamObject V
  clear object = []

  -- The constructor from a list of entries inserts them in turn.
  unfoldable pub insert_all : List (Text × V) → DatastreamObject V → DatastreamObject V
  insert_all [] object = object
  insert_all ((key, value) ∷ init) object = insert_all init (insert key value object)

  abbrev pub from_list : List (Text × V) → DatastreamObject V
  from_list init = insert_all init []

  -- `operator==` of the map: as many entries, and each is found in the other.
  abbrev found_same : (V → V → Bool) → V → Option V → Bool
  found_same same value none = false
  found_same same value (some other) = same value other

  unfoldable pub each_found : (V → V → Bool) → DatastreamObject V → DatastreamObject V → Bool
  each_found same [] other = true
  each_found same ((key, value) ∷ entries) other =
      found_same same value (find key other) && each_found same entries other

  unfoldable pub same_object : (V → V → Bool) → DatastreamObject V → DatastreamObject V → Bool
  same_object same object other = length object == length other && each_found same object other
