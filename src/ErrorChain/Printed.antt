-- ===== src/ErrorChain/Printed.antt =====
-- What the text of an error tells.
use astarte_device_sdk_cpp.Base.{
  Text, codes, none, some, ◌++◌, ◌∷◌, [], ◌≡◌, refl, sym, ◌∙◌, inl, inr, Without, cut, cut_end,
  Marked, append_cancel,
}
use mathlib.Core.List.{append_assoc}
use mathlib.Core.Path.{subst}
use astarte_device_sdk_cpp.ErrorChain.Nested.{
  ErrorBase, error_base, wrapping, new_error, type_and_message, format_nested, format_error,
}
use astarte_device_sdk_cpp.ErrorChain.{make_error, Construction, made_class, made_message}
use astarte_device_sdk_cpp.ErrorChain.Classes.{type_name-Without, make_error-new_error}

-- The error and those it nests come from the constructors of the classes, with messages of one line.
pub data IsMade : ErrorBase → Type 0 where
  outermost : (how : Construction) → Without b'\n' (made_message how) → IsMade (make_error how none)
  nesting :
      (how : Construction) (other : ErrorBase)
      → Without b'\n' (made_message how)
      → IsMade other
      → IsMade (make_error how (some other))

-- No colon in a type, no line break in a message.
unfoldable IsPlain : ErrorBase → Type 0
IsPlain (error_base name text) = Without b':' name × Without b'\n' text
IsPlain (wrapping name text other) = Without b':' name × Without b'\n' text × IsPlain other

made-IsPlain : (e : ErrorBase) → IsMade e → IsPlain e
unfolding IsPlain new_error
made-IsPlain _ (outermost how h) =
    subst IsPlain (sym (make_error-new_error how none)) (type_name-Without (made_class how), h)
made-IsPlain _ (nesting how other h made) =
    subst IsPlain (sym (make_error-new_error how (some other)))
      (type_name-Without (made_class how), h, made-IsPlain other made)

format_nested-Marked : (indent : Text) (e : ErrorBase) → Marked b'\n' (format_nested indent e)
unfolding format_nested
format_nested-Marked indent (error_base name text) = inl refl
format_nested-Marked indent (wrapping name text other) = inr (_, refl)

first_line :
    (name text s : Text) → (name ++ (codes ": " ++ text)) ++ s ≡ name ++ b':' ∷ b' ' ∷ (text ++ s)
first_line name text s = append_assoc name (codes ": " ++ text) s

first_line_injective :
    (name name' text text' s t : Text)
    → Without b':' name
    → Without b':' name'
    → Without b'\n' text
    → Without b'\n' text'
    → Marked b'\n' s
    → Marked b'\n' t
    → (name ++ (codes ": " ++ text)) ++ s ≡ (name' ++ (codes ": " ++ text')) ++ t
    → (name ≡ name') × (text ≡ text') × (s ≡ t)
first_line_injective name name' text text' s t hn hn' ht ht' hs hs' e =
    let (p, q) =
      cut b':' name name' (b' ' ∷ (text ++ s)) (b' ' ∷ (text' ++ t)) hn hn'
        (sym (first_line name text s) ∙ e ∙ first_line name' text' t) in
    let (r, u) = cut_end b'\n' text text' s t ht ht' hs hs' cc in (p, r, u)

lines_injective :
    (indent : Text) (a b : ErrorBase)
    → IsPlain a
    → IsPlain b
    → type_and_message a ++ format_nested indent a ≡ type_and_message b ++ format_nested indent b
    → a ≡ b
unfolding IsPlain format_nested
lines_injective indent (error_base n t) (error_base n' t') (hn, ht) (hn', ht') e =
    let (p, q, r) = first_line_injective n n' t t' _ _ hn hn' ht ht' (inl refl) (inl refl) e in cc
lines_injective indent (error_base n t) (wrapping n' t' o') (hn, ht) (hn', ht', ho') e =
    let (p, q, r) = first_line_injective n n' t t' _ _ hn hn' ht ht' (inl refl) (inr (_, refl)) e in
    cc
lines_injective indent (wrapping n t o) (error_base n' t') (hn, ht, ho) (hn', ht') e =
    let (p, q, r) = first_line_injective n n' t t' _ _ hn hn' ht ht' (inr (_, refl)) (inl refl) e in
    cc
lines_injective indent (wrapping n t o) (wrapping n' t' o') (hn, ht, ho) (hn', ht', ho') e =
    let (p, q, r) =
      first_line_injective n n' t t' _ _ hn hn' ht ht' (inr (_, refl)) (inr (_, refl)) e in
    let deeper = indent ++ codes "  " in
    let after_break : (u v : Text)
        → codes "\n" ++ (deeper ++ (codes "-> " ++ u))
          ≡ codes "\n" ++ (deeper ++ (codes "-> " ++ v))
        → u ≡ v =
      λ u v h. append_cancel (codes "-> ") (append_cancel deeper (append_cancel (codes "\n") h)) in
    let same = lines_injective deeper o o' ho ho' (after_break _ _ r) in cc

-- The text of an error tells the error: where two errors and those they nest come from the constructors
-- of the classes with messages of one line, equal texts come from equal errors, that is from the same
-- chain of types and messages.
pub format_error_injective :
    (a b : ErrorBase) → IsMade a → IsMade b → format_error a ≡ format_error b → a ≡ b
unfolding format_error
format_error_injective a b ha hb e =
    lines_injective [] a b (made-IsPlain a ha) (made-IsPlain b hb) e
