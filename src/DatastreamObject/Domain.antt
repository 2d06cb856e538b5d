-- ===== src/DatastreamObject/Domain.antt =====
-- Objects of which one holds what the other does, and the keys of an object.
use astarte_device_sdk_cpp.Base.{
  suc, ◌≤◌, ◌≡◌, refl, sym, ap, ◌∙◌, inl, inr, false, Option, none, some, [], ◌∷◌, Text, text_eq,
  text_eq_iff, length, if◌then◌else◌, Bool-cases, arith,
}
use astarte_device_sdk_cpp.DatastreamObject.{DatastreamObject, find, without}
use astarte_device_sdk_cpp.DatastreamObject.Lookup.{IsDistinct, if_none, find-without}

module _ {V : Type 0} where
  -- What is found in the first is found in the second.
  abbrev pub Sub : DatastreamObject V → DatastreamObject V → Type 0
  Sub a b = (key : Text) (value : V) → find key a ≡ some value → find key b ≡ some value

  pub find-first :
      (key : Text) (value : V) (a : DatastreamObject V) → find key ((key, value) ∷ a) ≡ some value
  unfolding find
  find-first key value a = rw ((text_eq_iff key key).1 refl) refl

  pub find-rest :
      (other key : Text) (value : V) (a : DatastreamObject V)
      → text_eq other key ≡ false
      → find other ((key, value) ∷ a) ≡ find other a
  unfolding find
  find-rest other key value a h = rw h refl

  without-absent : (key : Text) (a : DatastreamObject V) → find key a ≡ none → without key a ≡ a
  unfolding find without
  without-absent key [] e = refl
  without-absent key ((k, value) ∷ a) e = ground (arith, without-absent key a)

  length-without :
      (key : Text) (value : V) (a : DatastreamObject V)
      → IsDistinct a
      → find key a ≡ some value
      → length a ≡ suc (length (without key a))
  unfolding find without
  length-without key value [] d e = absurd cc
  length-without key value ((k, v) ∷ a) (n, d) e = elim (Bool-cases (text_eq key k)) [
    | inl h ↦ rw h (
        ap (λ l. suc (length l))
          (sym (without-absent key a (ap (λ j. find j a) ((text_eq_iff key k).0 h) ∙ n))))
    | inr h ↦ rw h (ap suc (length-without key value a d (sym (find-rest key k v a h) ∙ e)))
  ]

  without-IsDistinct :
      (key : Text) (a : DatastreamObject V) → IsDistinct a → IsDistinct (without key a)
  unfolding without
  without-IsDistinct key [] d = tt
  without-IsDistinct key ((k, v) ∷ a) (n, d) = elim (Bool-cases (text_eq key k)) [
    | inl h ↦ rw h (without-IsDistinct key a d)
    | inr h ↦
        rw h
          (find-without k key a ∙ if_none (text_eq k key) (find k a) n, without-IsDistinct key a d)
  ]

  -- What is in a rest is not under its first key.
  pub apart :
      (other key : Text) (w : V) (a : DatastreamObject V)
      → find key a ≡ none
      → find other a ≡ some w
      → text_eq other key ≡ false
  apart other key w a n e = elim (Bool-cases (text_eq other key)) [
    | inl h ↦
        let c : some w ≡ none = sym e ∙ ap (λ j. find j a) ((text_eq_iff other key).0 h) ∙ n in
        absurd cc
    | inr h ↦ h
  ]

  -- Without a first key, the rest is still found.
  Sub-without :
      (key : Text) (value : V) (a b : DatastreamObject V)
      → find key a ≡ none
      → Sub ((key, value) ∷ a) b
      → Sub a (without key b)
  Sub-without key value a b n sub other w e =
      let h = apart other key w a n e in
      find-without other key b
      ∙ ap (λ t. if t then none else find other b) h
      ∙ sub other w (find-rest other key value a h ∙ e)

  pub length-Sub :
      (a b : DatastreamObject V) → IsDistinct a → IsDistinct b → Sub a b → length a ≤ length b
  length-Sub [] b da db sub = omega arith
  length-Sub ((key, value) ∷ a) b (n, da) db sub =
      let e = length-without key value b db (sub key value (find-first key value a)) in
      let r =
        length-Sub a (without key b) da (without-IsDistinct key b db)
          (Sub-without key value a b n sub) in
      omega arith

  -- As many entries, and all found: then nothing else is there.
  pub find-Sub :
      (a b : DatastreamObject V)
      → IsDistinct a
      → IsDistinct b
      → Sub a b
      → length a ≡ length b
      → (other : Text) → find other a ≡ find other b
  find-Sub [] [] da db sub l other = refl
  find-Sub [] (x ∷ b) da db sub l other = absurd (omega arith)
  find-Sub ((key, value) ∷ a) b (n, da) db sub l other = elim (Bool-cases (text_eq other key)) [
    | inl h ↦
        ap (λ j. find j ((key, value) ∷ a)) ((text_eq_iff other key).0 h)
        ∙ find-first key value a
        ∙ sym (sub key value (find-first key value a))
        ∙ sym (ap (λ j. find j b) ((text_eq_iff other key).0 h))
    | inr h ↦
        let e = length-without key value b db (sub key value (find-first key value a)) in
        find-rest other key value a h
        ∙ find-Sub a (without key b) da (without-IsDistinct key b db)
            (Sub-without key value a b n sub) (omega arith) other
        ∙ find-without other key b
        ∙ ap (λ t. if t then none else find other b) h
  ]

  -- The keys of an object, and whether a key has a value.
  unfoldable pub keys : DatastreamObject V → DatastreamObject (Unit {0})
  keys [] = []
  keys ((key, value) ∷ a) = (key, tt) ∷ keys a

  abbrev pub present : Option V → Option (Unit {0})
  present none = none
  present (some value) = some tt

  pub length-keys : (a : DatastreamObject V) → length (keys a) ≡ length a
  unfolding keys
  length-keys [] = refl
  length-keys (entry ∷ a) = ap suc (length-keys a)

  pub find-keys : (key : Text) (a : DatastreamObject V) → find key (keys a) ≡ present (find key a)
  unfolding keys find
  find-keys key [] = refl
  find-keys key ((k, v) ∷ a) = elim (Bool-cases (text_eq key k)) [
    | inl h ↦ rw h refl
    | inr h ↦ rw h (find-keys key a)
  ]

  pub keys-IsDistinct : (a : DatastreamObject V) → IsDistinct a → IsDistinct (keys a)
  unfolding keys
  keys-IsDistinct [] d = tt
  keys-IsDistinct ((k, v) ∷ a) (n, d) = (find-keys k a ∙ ap present n, keys-IsDistinct a d)
