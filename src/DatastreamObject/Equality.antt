-- ===== src/DatastreamObject/Equality.antt =====
-- When two objects compare as equal.
use astarte_device_sdk_cpp.Base.{
  ◌≡◌, refl, sym, ap, ◌∙◌, subst, ◌↔◌, inl, inr, Bool, true, false, ◌&&◌, ◌==◌, ==_iff, Option,
  none, some, [], ◌∷◌, Text, text_eq, text_eq_iff, length, Bool-cases, arith,
}
use astarte_device_sdk_cpp.DatastreamObject.{
  DatastreamObject, find, found_same, each_found, same_object,
}
use astarte_device_sdk_cpp.DatastreamObject.Lookup.{IsDistinct}
use astarte_device_sdk_cpp.DatastreamObject.Domain.{
  Sub, find-first, find-rest, apart, length-Sub, find-Sub, keys, present, length-keys, find-keys,
  keys-IsDistinct,
}

&&-parts : (p q : Bool) → (p && q) ≡ true → (p ≡ true) × (q ≡ true)
&&-parts true q h = (refl, h)
&&-parts false q h = absurd cc

&&-both : (p q : Bool) → p ≡ true → q ≡ true → (p && q) ≡ true
&&-both true q h k = k
&&-both false q h k = absurd cc

some_back : {V : Type 0} {v w : V} → some v ≡ some w → v ≡ w
some_back e = cc

module _ {V : Type 0} (same : V → V → Bool) where
  -- Neither has a value, or both have values that compare as the same.
  unfoldable pub Matches : Option V → Option V → Type 0
  Matches none none = Unit
  Matches (some value) (some other) = same value other ≡ true
  Matches _ _ = ⊥

  -- There is a value, and it compares as the same.
  abbrev Found : V → Option V → Type 0
  Found value opt = (other : V) × (opt ≡ some other) × (same value other ≡ true)

  -- What is in the first has the same in the second.
  abbrev SameSub : DatastreamObject V → DatastreamObject V → Type 0
  SameSub a b = (key : Text) (value : V) → find key a ≡ some value → Found value (find key b)

  found_same_iff :
      (value : V) (opt : Option V) → (found_same same value opt ≡ true) ↔ Found value opt
  found_same_iff value none = (λ h. absurd cc, λ (w, e, h). absurd cc)
  found_same_iff value (some other) =
      (λ h. (other, refl, h), λ (w, e, h). subst (λ u. same value u ≡ true) (sym (some_back e)) h)

  each_found-SameSub : (a b : DatastreamObject V) → each_found same a b ≡ true → SameSub a b
  unfolding each_found
  each_found-SameSub [] b h key value e = unfold find in absurd cc
  each_found-SameSub ((k, v) ∷ a) b h key value e =
      let (p, q) = &&-parts (found_same same v (find k b)) (each_found same a b) h in
      elim (Bool-cases (text_eq key k)) [
        | inl s ↦
            let equal = (text_eq_iff key k).0 s in
            let first : some v ≡ some value =
              sym (find-first k v a) ∙ sym (ap (λ j. find j ((k, v) ∷ a)) equal) ∙ e in
            subst (Found value) (sym (ap (λ j. find j b) equal)) (
              subst (λ u. Found u (find k b)) (some_back first) ((found_same_iff v (find k b)).0 p))
        | inr s ↦ each_found-SameSub a b q key value (sym (find-rest key k v a s) ∙ e)
      ]

  SameSub-each_found :
      (a b : DatastreamObject V) → IsDistinct a → SameSub a b → each_found same a b ≡ true
  unfolding each_found
  SameSub-each_found [] b d sub = refl
  SameSub-each_found ((k, v) ∷ a) b (n, d) sub =
      &&-both (found_same same v (find k b)) (each_found same a b)
        ((found_same_iff v (find k b)).1 (sub k v (find-first k v a)))
        (SameSub-each_found a b d
          (λ key w e. sub key w (find-rest key k v a (apart key k w a n e) ∙ e)))

  present-Matches : (opt other : Option V) → Matches opt other → present opt ≡ present other
  unfolding Matches
  present-Matches none none m = refl
  present-Matches (some v) (some w) m = refl
  present-Matches none (some w) m = absurd m
  present-Matches (some v) none m = absurd m

  Matches-back :
      (opt other : Option V)
      → present opt ≡ present other
      → ((value : V) → opt ≡ some value → Found value other)
      → Matches opt other
  unfolding Matches
  Matches-back none none e found = tt
  Matches-back none (some w) e found = absurd cc
  Matches-back (some v) other e found =
      let (w, there, h) = found v refl in subst (λ o. Matches (some v) o) (sym there) h

  Matches-Found :
      (opt other : Option V)
      → Matches opt other
      → (value : V) → opt ≡ some value
      → Found value other
  unfolding Matches
  Matches-Found none other m value e = absurd cc
  Matches-Found (some v) none m value e = absurd m
  Matches-Found (some v) (some w) m value e =
      (w, refl, subst (λ u. same u w ≡ true) (some_back e) m)

  present-Found :
      (opt other : Option V) (u : Unit {0})
      → ((value : V) → opt ≡ some value → Found value other)
      → present opt ≡ some u
      → present other ≡ some u
  present-Found none other u found e = absurd cc
  present-Found (some v) other u found e = let (w, there, h) = found v refl in ap present there ∙ e

  keys-Sub : (a b : DatastreamObject V) → SameSub a b → Sub (keys a) (keys b)
  keys-Sub a b sub key u e =
      find-keys key b
      ∙ present-Found (find key a) (find key b) u (sub key) (sym (find-keys key a) ∙ e)

  -- Two objects compare as equal exactly if every key is absent from both, or has in both values that
  -- compare as the same, whatever the order of their entries: if each key stands once in each.
  pub same_object_iff :
      (a b : DatastreamObject V)
      → IsDistinct a
      → IsDistinct b
      → (same_object same a b ≡ true) ↔ ((key : Text) → Matches (find key a) (find key b))
  unfolding same_object
  same_object_iff a b da db = (
    λ h.
        let (l, each) = &&-parts (length a == length b) (each_found same a b) h in
        let sub = each_found-SameSub a b each in
        let lengths = length-keys a ∙ (==_iff (length a) (length b)).0 l ∙ sym (length-keys b) in
        let domain =
          find-Sub (keys a) (keys b) (keys-IsDistinct a da) (keys-IsDistinct b db)
            (keys-Sub a b sub) lengths in
        λ key.
          Matches-back (find key a) (find key b)
            (sym (find-keys key a) ∙ domain key ∙ find-keys key b) (sub key),
    λ h.
        let there : SameSub a b = λ key. Matches-Found (find key a) (find key b) (h key) in
        let domain : (key : Text) → find key (keys a) ≡ find key (keys b) = λ key.
          find-keys key a
          ∙ present-Matches (find key a) (find key b) (h key)
          ∙ sym (find-keys key b) in
        let wa = keys-IsDistinct a da in
        let wb = keys-IsDistinct b db in
        let l = length-Sub (keys a) (keys b) wa wb (λ key u e. sym (domain key) ∙ e) in
        let l' = length-Sub (keys b) (keys a) wb wa (λ key u e. domain key ∙ e) in
        let la = length-keys a in
        let lb = length-keys b in
        &&-both (length a == length b) (each_found same a b)
          ((==_iff (length a) (length b)).1 (omega arith)) (SameSub-each_found a b da there),
  )
