-- ===== src/DatastreamObject/Runs.antt =====
-- What any sequence of operations makes of an object: the operations on the partial function from keys
-- to values that the object stands for.
use astarte_device_sdk_cpp.Base.{
  ◌≡◌, refl, ap, inl, inr, Bool-cases, Option-cases, ◌∙◌, Option, none, some, List, [], ◌∷◌, Text,
  text_eq, if◌then◌else◌,
}
use mathlib.Core.Path.{fun_ext}
use astarte_device_sdk_cpp.DatastreamObject.{DatastreamObject, find, insert, without, erase, clear}
use astarte_device_sdk_cpp.DatastreamObject.Lookup.{
  IsDistinct, if_none, or_else, find-insert, find-without,
}

pub data Operation (V : Type 0) : Type 0 where
  inserts : (key : Text) (value : V) → Operation V
  erases : (key : Text) → Operation V
  clears : Operation V

module _ {V : Type 0} where
  unfoldable pub perform : Operation V → DatastreamObject V → DatastreamObject V
  perform (inserts key value) object = insert key value object
  perform (erases key) object = (erase key object).0
  perform clears object = clear object

  unfoldable pub run : List (Operation V) → DatastreamObject V → DatastreamObject V
  run [] object = object
  run (o ∷ operations) object = run operations (perform o object)

  -- An insertion keeps the value that is there; an erasure forgets it.
  unfoldable pub effect : Operation V → (Text → Option V) → Text → Option V
  effect (inserts key value) values other =
      or_else (values other) (if text_eq other key then some value else none)
  effect (erases key) values other = if text_eq other key then none else values other
  effect clears values other = none

  unfoldable pub replay : List (Operation V) → (Text → Option V) → Text → Option V
  replay [] values = values
  replay (o ∷ operations) values = replay operations (effect o values)

  abbrev pub lookups : DatastreamObject V → Text → Option V
  lookups object key = find key object

  find-perform :
      (o : Operation V) (object : DatastreamObject V) (key : Text)
      → find key (perform o object) ≡ effect o (lookups object) key
  unfolding perform effect erase find
  find-perform (inserts k v) object key = find-insert key k v object
  find-perform (erases k) object key = find-without key k object
  find-perform clears object key = refl

  without-IsDistinct :
      (key : Text) (object : DatastreamObject V)
      → IsDistinct object
      → IsDistinct (without key object)
  unfolding without
  without-IsDistinct key [] h = tt
  without-IsDistinct key ((k, value) ∷ entries) (n, h) = elim (Bool-cases (text_eq key k)) [
    | inl e ↦ rw e (without-IsDistinct key entries h)
    | inr e ↦ rw e (
      find-without k key entries ∙ if_none (text_eq k key) (find k entries) n,
      without-IsDistinct key entries h,
    )
  ]

  insert-IsDistinct :
      (key : Text) (value : V) (object : DatastreamObject V)
      → IsDistinct object
      → IsDistinct (insert key value object)
  unfolding insert
  insert-IsDistinct key value object h = elim (Option-cases (find key object)) [
    | inl e ↦ rw e (e, h)
    | inr (present, e) ↦ rw e h
  ]

  perform-IsDistinct :
      (o : Operation V) (object : DatastreamObject V)
      → IsDistinct object
      → IsDistinct (perform o object)
  unfolding perform erase
  perform-IsDistinct (inserts key value) object h = insert-IsDistinct key value object h
  perform-IsDistinct (erases key) object h = without-IsDistinct key object h
  perform-IsDistinct clears object h = tt

  -- After any operations in any order, an object has for each key what the same operations make of the
  -- function from keys to values: an insertion keeps the value that is there, and adds the new one
  -- otherwise; an erasure and a clearing forget. The keys of the object stay distinct, if they were.
  pub run-refines :
      (operations : List (Operation V)) (object : DatastreamObject V)
      → IsDistinct object
      → IsDistinct (run operations object)
        × ((key : Text) → find key (run operations object) ≡ replay operations (lookups object) key)
  unfolding run replay
  run-refines [] object h = (h, λ key. refl)
  run-refines (o ∷ operations) object h =
      let (d, found) = run-refines operations (perform o object) (perform-IsDistinct o object h) in
      (
        d,
        λ key.
            found key
            ∙ ap (λ values. replay operations values key) (fun_ext (λ k. find-perform o object k)),
      )
