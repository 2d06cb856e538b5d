-- ===== src/ErrorChain/Nested.antt =====
-- The class `ErrorBase` of src/errors.cpp and its formatter in
-- include/astarte_device_sdk/errors.hpp.
use astarte_device_sdk_cpp.Base.{Text, codes, Option, none, some, [], ◌++◌, ◌≡◌, refl, ap}

-- Its type and its message, and the error that it nests where there is one.
pub data ErrorBase : Type 0 where
  error_base : Text → Text → ErrorBase
  wrapping : Text → Text → ErrorBase → ErrorBase

unfoldable pub new_error : Text → Text → Option ErrorBase → ErrorBase
new_error name text none = error_base name text
new_error name text (some other) = wrapping name text other

-- What a class derived from `ErrorBase` declares: its name, and its constructor from a message and the
-- error to nest, where one is given.
pub record ErrorClass : Type 0 where
  pub k_type : Text
  pub construct : Text → Option ErrorBase → ErrorBase

abbrev pub message : ErrorBase → Text
message (error_base name text) = text
message (wrapping name text other) = text

abbrev pub type : ErrorBase → Text
type (error_base name text) = name
type (wrapping name text other) = name

abbrev pub nested_error : ErrorBase → Option ErrorBase
nested_error (error_base name text) = none
nested_error (wrapping name text other) = some other

abbrev pub type_and_message : ErrorBase → Text
type_and_message e = type e ++ (codes ": " ++ message e)

-- The loop over the nested errors.
unfoldable pub format_nested : Text → ErrorBase → Text
format_nested indent (error_base name text) = []
format_nested indent (wrapping name text nested) =
    let deeper = indent ++ codes "  " in
    codes "\n"
    ++ (deeper ++ (codes "-> " ++ (type_and_message nested ++ format_nested deeper nested)))

unfoldable pub format_error : ErrorBase → Text
format_error e = type_and_message e ++ format_nested [] e

pub new_error_injective :
    (name name' text text' : Text) (other other' : Option ErrorBase)
    → new_error name text other ≡ new_error name' text' other'
    → (name ≡ name') × (text ≡ text') × (other ≡ other')
unfolding new_error
new_error_injective name name' text text' none none e = (ap type e, ap message e, refl)
new_error_injective name name' text text' none (some o') e = cc
new_error_injective name name' text text' (some o) none e = cc
new_error_injective name name' text text' (some o) (some o') e =
    (ap type e, ap message e, ap nested_error e)
