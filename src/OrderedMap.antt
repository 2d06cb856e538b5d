-- ===== src/OrderedMap.antt =====
-- `std::map<std::string, V, std::less<>>`: an association list in the order of the keys, with
-- `find` and `insert_or_assign`.
mod Order
pub mod Laws
use astarte_device_sdk_cpp.Base.{
  ℕ, Bool, true, false, Option, none, some, List, [], ◌∷◌, Text, text_eq, text_lt, if◌then◌else◌,
}

module _ {ℓ} {V : Type ℓ} where
  unfoldable pub find : Text → List (Text × V) → Option V
  find key [] = none
  find key ((k, v) ∷ entries) = if text_eq k key then some v else find key entries

  unfoldable pub insert_or_assign : Text → V → List (Text × V) → List (Text × V)
  insert_or_assign key value [] = (key, value) ∷ []
  insert_or_assign key value ((k, v) ∷ entries) =
      if text_eq k key
      then (key, value) ∷ entries
      else if text_lt key k
      then (key, value) ∷ (k, v) ∷ entries
      else (k, v) ∷ insert_or_assign key value entries
