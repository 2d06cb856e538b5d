-- ===== src/DatastreamObject/Lookup.antt =====
-- What is found after an operation.
use astarte_device_sdk_cpp.Base.{
  ◌≡◌, refl, sym, ap, ◌∙◌, inl, inr, Bool, true, false, Option, none, some, List, [], ◌∷◌, Text,
  text_eq, text_eq_iff, if◌then◌else◌, Bool-cases, arith,
}
use astarte_device_sdk_cpp.DatastreamObject.{
  DatastreamObject, find, insert, insert_new, without, insert_all, from_list,
}

-- The first value, or else the second.
abbrev pub or_else : {V : Type 0} → Option V → Option V → Option V
or_else none second = second
or_else (some value) second = some value

or_else-none : {V : Type 0} → (o : Option V) → o ≡ or_else o none
or_else-none none = refl
or_else-none (some value) = refl

or_else-some :
    {V : Type 0} → (o second : Option V) (present : V) → o ≡ some present → o ≡ or_else o second
or_else-some none second present e = absurd cc
or_else-some (some value) second present e = refl

or_else-if :
    {V : Type 0}
    → (o last : Option V) (b : Bool) (value : V)
    → or_else (or_else o (if b then some value else none)) last
      ≡ or_else o (if b then some value else last)
or_else-if none last true value = refl
or_else-if none last false value = refl
or_else-if (some v) last b value = refl

pub if_none : {V : Type 0} → (b : Bool) (o : Option V) → o ≡ none → (if b then none else o) ≡ none
if_none true o e = refl
if_none false o e = e

module _ {V : Type 0} where
  -- Each key stands once.
  abbrev pub IsDistinct : DatastreamObject V → Type 0
  IsDistinct [] = Unit
  IsDistinct ((key, value) ∷ entries) = (find key entries ≡ none) × IsDistinct entries

  find-insert_new :
      (other key : Text) (value : V) (object : DatastreamObject V) (present : Option V)
      → find key object ≡ present
      → find other (insert_new key value object present)
        ≡ or_else (find other object) (if text_eq other key then some value else none)
  unfolding find
  find-insert_new other key value object none e = elim (Bool-cases (text_eq other key)) [
    | inl h ↦
        let same = (text_eq_iff other key).0 h in
        rw h (ap (λ o. or_else o (some value)) (sym e ∙ ap (λ k. find k object) (sym same)))
    | inr h ↦ rw h (or_else-none (find other object))
  ]
  find-insert_new other key value object (some present) e = elim (Bool-cases (text_eq other key)) [
    | inl h ↦
        or_else-some (find other object) _ present
          (ap (λ k. find k object) ((text_eq_iff other key).0 h) ∙ e)
    | inr h ↦ rw h (or_else-none (find other object))
  ]

  -- Inserting keeps the value of a key that is there, and adds the value otherwise; nothing else is
  -- found differently.
  pub find-insert :
      (other key : Text) (value : V) (object : DatastreamObject V)
      → find other (insert key value object)
        ≡ or_else (find other object) (if text_eq other key then some value else none)
  unfolding insert
  find-insert other key value object = find-insert_new other key value object (find key object) refl

  find-insert_all :
      (other : Text) (init : List (Text × V)) (object : DatastreamObject V)
      → find other (insert_all init object) ≡ or_else (find other object) (find other init)
  unfolding insert_all find
  find-insert_all other [] object = or_else-none (find other object)
  find-insert_all other ((key, value) ∷ init) object =
      find-insert_all other init (insert key value object)
      ∙ ap (λ o. or_else o (find other init)) (find-insert other key value object)
      ∙ or_else-if (find other object) (find other init) (text_eq other key) value

  -- An object that is made from a list has for each key the first value that the list has for it.
  pub find-from_list :
      (other : Text) (init : List (Text × V)) → find other (from_list init) ≡ find other init
  unfolding find
  find-from_list other init = find-insert_all other init []

  -- Erasing a key removes it and nothing else.
  pub find-without :
      (other key : Text) (object : DatastreamObject V)
      → find other (without key object) ≡ (if text_eq other key then none else find other object)
  unfolding find without
  find-without other key [] = sym (if_none (text_eq other key) none refl)
  find-without other key ((k, value) ∷ entries) = ground (
    arith,
    text_eq_iff key k,
    text_eq_iff other k,
    text_eq_iff other key,
    find-without other key entries,
  )
