-- ===== src/OrderedMap/Laws.antt =====
-- The laws of the map: lookup after a write, and the order of the keys.
use astarte_device_sdk_cpp.Base.{
  ◌≡◌, refl, true, false, some, List, [], ◌∷◌, Text, text_eq, text_eq_iff, text_lt, if◌then◌else◌,
  All, arith, Bool-cases, inl, inr, subst,
}
use astarte_device_sdk_cpp.OrderedMap.{find, insert_or_assign}
use astarte_device_sdk_cpp.OrderedMap.Order.{text_lt_trans, text_lt_total}

text_eq_sym : (s t : Text) → text_eq s t ≡ false → text_eq t s ≡ false
text_eq_sym s t h = ground (arith, text_eq_iff s t, text_eq_iff t s)

module _ {ℓ} {V : Type ℓ} where
  -- Each key is smaller than all that follow it.
  abbrev pub IsOrdered : List (Text × V) → Type ℓ
  IsOrdered [] = Unit
  IsOrdered ((k, v) ∷ entries) = All (λ e. text_lt k e.0 ≡ true) entries × IsOrdered entries

  -- After a write, the written key has the written value, and every other key what it had.
  pub find-insert_or_assign :
      (key j : Text) (value : V) (entries : List (Text × V))
      → find j (insert_or_assign key value entries)
        ≡ (if text_eq key j then some value else find j entries)
  unfolding find insert_or_assign
  find-insert_or_assign key j value [] = refl
  find-insert_or_assign key j value ((k, v) ∷ entries) = ground (
    arith,
    text_eq_iff k key,
    text_eq_iff key j,
    text_eq_iff k j,
    find-insert_or_assign key j value entries,
  )

  Below-insert :
      (low key : Text) (value : V) (entries : List (Text × V))
      → text_lt low key ≡ true
      → All (λ e. text_lt low e.0 ≡ true) entries
      → All (λ e. text_lt low e.0 ≡ true) (insert_or_assign key value entries)
  unfolding insert_or_assign
  Below-insert low key value [] h k = (h, tt)
  Below-insert low key value ((k, v) ∷ entries) h hs =
      ground (arith, Below-insert low key value entries h hs.1)

  Below_trans :
      (low key : Text) (entries : List (Text × V))
      → text_lt low key ≡ true
      → All (λ e. text_lt key e.0 ≡ true) entries
      → All (λ e. text_lt low e.0 ≡ true) entries
  Below_trans low key [] h hs = tt
  Below_trans low key (e ∷ entries) h (k, hs) =
      (text_lt_trans low key e.0 h k, Below_trans low key entries h hs)

  -- A write keeps the keys in order, so each is there once.
  pub insert_or_assign-IsOrdered :
      (key : Text) (value : V) (entries : List (Text × V))
      → IsOrdered entries
      → IsOrdered (insert_or_assign key value entries)
  unfolding insert_or_assign
  insert_or_assign-IsOrdered key value [] h = (tt, tt)
  insert_or_assign-IsOrdered key value ((k, v) ∷ entries) (h, hs) =
      elim (Bool-cases (text_eq k key)) [
        | inl same ↦
            let e : k ≡ key = (text_eq_iff k key).0 same in
            rw same (subst (λ j. All (λ x. text_lt j x.0 ≡ true) entries) e h, hs)
        | inr other ↦ elim (Bool-cases (text_lt key k)) [
          | inl below ↦ rw (other, below) ((below, Below_trans key k entries below h), (h, hs))
          | inr above ↦
              let lt : text_lt k key ≡ true = text_lt_total key k (text_eq_sym k key other) above in
              rw (other, above)
                (
                  Below-insert k key value entries lt h,
                  insert_or_assign-IsOrdered key value entries hs,
                )
        ]
      ]
