-- ===== src/Session/Payload.antt =====
-- The text that tells Astarte the device's interfaces.
use astarte_device_sdk_cpp.Base.{
  ℕ, ◌<◌, ◌≡◌, refl, sym, ap, ◌∙◌, ◌⊎◌, inl, inr, List, [], ◌∷◌, ◌++◌, map, Text, length,
  length-append, All, Without, cut, arith,
}
use mathlib.Core.List.{append_assoc}
use astarte_device_sdk_cpp.Interface.{Interface}
use astarte_device_sdk_cpp.Decimal.{
  to_decimal, from_decimal, from_decimal-to_decimal, IsDigit, to_decimal-IsDigit,
}
use astarte_device_sdk_cpp.Session.{pop_back, introspection_entries, introspection_payload}

-- What the payload says of an interface.
abbrev pub name_and_version : Interface → Text × ℕ × ℕ
name_and_version interface =
    (interface.interface_name, interface.version_major, interface.version_minor)

abbrev pub HasPlainName : Interface → Type 0
HasPlainName interface = Without b':' interface.interface_name

to_decimal_injective : (m n : ℕ) → to_decimal m ≡ to_decimal n → m ≡ n
to_decimal_injective m n e =
    sym (from_decimal-to_decimal m) ∙ ap from_decimal e ∙ from_decimal-to_decimal n

IsDigit-Without : (c : ℕ) (s : Text) → b'9' < c → All IsDigit s → Without c s
IsDigit-Without c [] h hs = tt
IsDigit-Without c (d ∷ s) h ((lo, hi), hs) = (omega arith, IsDigit-Without c s h hs)

entries_injective :
    (xs ys : List Interface)
    → All HasPlainName xs
    → All HasPlainName ys
    → introspection_entries xs ≡ introspection_entries ys
    → map name_and_version xs ≡ map name_and_version ys
unfolding introspection_entries
entries_injective [] [] hx hy e = refl
entries_injective [] (y ∷ ys) hx hy e =
    absurd (omega (arith, ap length e, length-append y.interface_name _))
entries_injective (x ∷ xs) [] hx hy e =
    absurd (omega (arith, ap length e, length-append x.interface_name _))
entries_injective (x ∷ xs) (y ∷ ys) (h, hx) (h', hy) e =
    let (n, e1) = cut b':' x.interface_name y.interface_name _ _ h h' e in
    let plain : (c n : ℕ) → b'9' < c → Without c (to_decimal n) =
      λ c n l. IsDigit-Without c (to_decimal n) l (to_decimal-IsDigit n) in
    let (major, e2) =
      cut b':' _ _ _ _ (plain b':' x.version_major (omega arith))
        (plain b':' y.version_major (omega arith)) e1 in
    let (minor, e3) =
      cut b';' _ _ _ _ (plain b';' x.version_minor (omega arith))
        (plain b';' y.version_minor (omega arith)) e2 in
    let p = to_decimal_injective _ _ major in
    let q = to_decimal_injective _ _ minor in let rest = entries_injective xs ys hx hy e3 in cc

-- A text of two bytes or more that ends with a semicolon, or no text.
IsClosed : Text → Type 0
IsClosed s = (s ≡ []) ⊎ ((c : ℕ) × (f : Text) × (s ≡ (c ∷ f) ++ b';' ∷ []))

pop_back-append : (c : ℕ) (f : Text) (d : ℕ) → pop_back ((c ∷ f) ++ d ∷ []) ≡ c ∷ f
unfolding pop_back
pop_back-append c [] d = refl
pop_back-append c (c' ∷ f) d = ap (◌∷◌ c) (pop_back-append c' f d)

pop_back_injective : (s t : Text) → IsClosed s → IsClosed t → pop_back s ≡ pop_back t → s ≡ t
unfolding IsClosed pop_back
pop_back_injective s t (inl e) (inl e') h = e ∙ sym e'
pop_back_injective s t (inl e) (inr (c, f, e')) h =
    let x : [] ≡ c ∷ f = ap pop_back (sym e) ∙ h ∙ ap pop_back e' ∙ pop_back-append c f _ in
    absurd cc
pop_back_injective s t (inr (c, f, e)) (inl e') h =
    let x : [] ≡ c ∷ f = ap pop_back (sym e') ∙ sym h ∙ ap pop_back e ∙ pop_back-append c f _ in
    absurd cc
pop_back_injective s t (inr (c, f, e)) (inr (c', f', e')) h =
    let x : c ∷ f ≡ c' ∷ f' =
      sym (pop_back-append c f b';')
      ∙ ap pop_back (sym e)
      ∙ h
      ∙ ap pop_back e'
      ∙ pop_back-append c' f' b';' in
    e ∙ ap (λ l. l ++ b';' ∷ []) x ∙ sym e'

EndsClosed : Text → Type 0
EndsClosed s = (f : Text) × (s ≡ f ++ b';' ∷ [])

EndsClosed-append : (a s : Text) → EndsClosed s → EndsClosed (a ++ s)
unfolding EndsClosed
EndsClosed-append a s (f, e) = (a ++ f, ap (λ l. a ++ l) e ∙ sym (append_assoc a f (b';' ∷ [])))

entry-EndsClosed :
    (x : Interface) (s : Text)
    → EndsClosed (b';' ∷ s)
    → EndsClosed (
        x.interface_name
        ++ (b':'
            ∷ (to_decimal x.version_major ++ (b':' ∷ (to_decimal x.version_minor ++ (b';' ∷ s))))))
entry-EndsClosed x s h = EndsClosed-append x.interface_name _ (
    EndsClosed-append (b':' ∷ []) _ (
      EndsClosed-append (to_decimal x.version_major) _
        (EndsClosed-append (b':' ∷ []) _ (EndsClosed-append (to_decimal x.version_minor) _ h))))

entries-EndsClosed :
    (x : Interface) (xs : List Interface) → EndsClosed (introspection_entries (x ∷ xs))
unfolding introspection_entries
entries-EndsClosed x [] = entry-EndsClosed x [] (unfold EndsClosed in ([], refl))
entries-EndsClosed x (y ∷ ys) =
    entry-EndsClosed x _ (EndsClosed-append (b';' ∷ []) _ (entries-EndsClosed y ys))

entries-IsClosed : (xs : List Interface) → IsClosed (introspection_entries xs)
unfolding IsClosed introspection_entries EndsClosed
entries-IsClosed [] = inl refl
entries-IsClosed (x ∷ xs) = let (f, e) = entries-EndsClosed x xs in long f e
  where
    long :
        (f : Text)
        → introspection_entries (x ∷ xs) ≡ f ++ b';' ∷ []
        → IsClosed (introspection_entries (x ∷ xs))
    long [] e = absurd (
        omega (
          arith,
          ap length e,
          length-append x.interface_name _,
          length-append (to_decimal x.version_major) _,
          length-append (to_decimal x.version_minor) _,
        ))
    long (c ∷ f) e = inr (c, f, e)

-- The payload tells two lists of interfaces apart: where no name has a colon, equal payloads come
-- from lists with the same names and the same versions in the same order.
pub introspection_payload_injective :
    (xs ys : List Interface)
    → All HasPlainName xs
    → All HasPlainName ys
    → introspection_payload xs ≡ introspection_payload ys
    → map name_and_version xs ≡ map name_and_version ys
unfolding introspection_payload
introspection_payload_injective xs ys hx hy e =
    entries_injective xs ys hx hy
      (pop_back_injective _ _ (entries-IsClosed xs) (entries-IsClosed ys) e)
