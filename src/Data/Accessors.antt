-- ===== src/Data/Accessors.antt =====
-- The constructor and the accessors of `Data` in include/astarte_device_sdk/data.hpp. The C++ type that
-- the templates take is one of the alternatives of the variant, and is named by the Astarte type that
-- belongs to it; `std::string_view` stands for `std::string`.
use astarte_device_sdk_cpp.Base.{
  ℕ, Bool, List, Text, Option, none, some, ◌≡◌, ◌↔◌, refl, ap, ◌∙◌, subst,
}
use astarte_device_sdk_cpp.Base.Int.{ℤ}
use astarte_device_sdk_cpp.Data.{
  AstarteType, Data, get_type, int32, int64, float64, flag, text, blob, time_point, int32s, int64s,
  float64s, flags, texts, blobs, time_points,
}

-- The C++ type of the values of an Astarte type.
abbrev pub ValueOf : Type 0 → AstarteType → Type 0
ValueOf D AstarteType.integer = ℤ
ValueOf D AstarteType.long_integer = ℤ
ValueOf D AstarteType.double = D
ValueOf D AstarteType.boolean = Bool
ValueOf D AstarteType.string = Text
ValueOf D AstarteType.binary_blob = List ℕ
ValueOf D AstarteType.datetime = ℤ
ValueOf D AstarteType.integer_array = List ℤ
ValueOf D AstarteType.long_integer_array = List ℤ
ValueOf D AstarteType.double_array = List D
ValueOf D AstarteType.boolean_array = List Bool
ValueOf D AstarteType.string_array = List Text
ValueOf D AstarteType.binary_blob_array = List (List ℕ)
ValueOf D AstarteType.datetime_array = List ℤ

module _ {D : Type 0} where
  -- The constructor from a value of that type.
  unfoldable pub make : (t : AstarteType) → ValueOf D t → Data D
  make AstarteType.integer x = int32 x
  make AstarteType.long_integer x = int64 x
  make AstarteType.double x = float64 x
  make AstarteType.boolean x = flag x
  make AstarteType.string x = text x
  make AstarteType.binary_blob x = blob x
  make AstarteType.datetime x = time_point x
  make AstarteType.integer_array x = int32s x
  make AstarteType.long_integer_array x = int64s x
  make AstarteType.double_array x = float64s x
  make AstarteType.boolean_array x = flags x
  make AstarteType.string_array x = texts x
  make AstarteType.binary_blob_array x = blobs x
  make AstarteType.datetime_array x = time_points x

  -- `std::holds_alternative` with `std::get`.
  unfoldable pub try_into : (t : AstarteType) → Data D → Option (ValueOf D t)
  try_into AstarteType.integer (int32 x) = some x
  try_into AstarteType.long_integer (int64 x) = some x
  try_into AstarteType.double (float64 x) = some x
  try_into AstarteType.boolean (flag x) = some x
  try_into AstarteType.string (text x) = some x
  try_into AstarteType.binary_blob (blob x) = some x
  try_into AstarteType.datetime (time_point x) = some x
  try_into AstarteType.integer_array (int32s x) = some x
  try_into AstarteType.long_integer_array (int64s x) = some x
  try_into AstarteType.double_array (float64s x) = some x
  try_into AstarteType.boolean_array (flags x) = some x
  try_into AstarteType.string_array (texts x) = some x
  try_into AstarteType.binary_blob_array (blobs x) = some x
  try_into AstarteType.datetime_array (time_points x) = some x
  try_into t v = none

  -- Nothing where `std::get` throws.
  abbrev pub into : (t : AstarteType) → Data D → Option (ValueOf D t)
  into t v = try_into t v

  -- The value of a datum, which the accessors of its type return.
  value_of :
      (v : Data D)
      → (x : ValueOf D (get_type v)) × (try_into (get_type v) v ≡ some x)
        × (v ≡ make (get_type v) x)
  unfolding make get_type try_into
  value_of (int32 x) = (x, refl, refl)
  value_of (int64 x) = (x, refl, refl)
  value_of (float64 x) = (x, refl, refl)
  value_of (flag x) = (x, refl, refl)
  value_of (text x) = (x, refl, refl)
  value_of (blob x) = (x, refl, refl)
  value_of (time_point x) = (x, refl, refl)
  value_of (int32s x) = (x, refl, refl)
  value_of (int64s x) = (x, refl, refl)
  value_of (float64s x) = (x, refl, refl)
  value_of (flags x) = (x, refl, refl)
  value_of (texts x) = (x, refl, refl)
  value_of (blobs x) = (x, refl, refl)
  value_of (time_points x) = (x, refl, refl)

get_type-make : (D : Type 0) (t : AstarteType) (x : ValueOf D t) → get_type (make {D = D} t x) ≡ t
unfolding make get_type
get_type-make D AstarteType.integer x = refl
get_type-make D AstarteType.long_integer x = refl
get_type-make D AstarteType.double x = refl
get_type-make D AstarteType.boolean x = refl
get_type-make D AstarteType.string x = refl
get_type-make D AstarteType.binary_blob x = refl
get_type-make D AstarteType.datetime x = refl
get_type-make D AstarteType.integer_array x = refl
get_type-make D AstarteType.long_integer_array x = refl
get_type-make D AstarteType.double_array x = refl
get_type-make D AstarteType.boolean_array x = refl
get_type-make D AstarteType.string_array x = refl
get_type-make D AstarteType.binary_blob_array x = refl
get_type-make D AstarteType.datetime_array x = refl

made_of :
    {D : Type 0} (t : AstarteType) (v : Data D) (x : ValueOf D t)
    → try_into t v ≡ some x
    → v ≡ make t x
unfolding try_into make
made_of AstarteType.integer (int32 x) y e = ap int32 cc
made_of AstarteType.long_integer (int64 x) y e = ap int64 cc
made_of AstarteType.double (float64 x) y e = ap float64 cc
made_of AstarteType.boolean (flag x) y e = ap flag cc
made_of AstarteType.string (text x) y e = ap text cc
made_of AstarteType.binary_blob (blob x) y e = ap blob cc
made_of AstarteType.datetime (time_point x) y e = ap time_point cc
made_of AstarteType.integer_array (int32s x) y e = ap int32s cc
made_of AstarteType.long_integer_array (int64s x) y e = ap int64s cc
made_of AstarteType.double_array (float64s x) y e = ap float64s cc
made_of AstarteType.boolean_array (flags x) y e = ap flags cc
made_of AstarteType.string_array (texts x) y e = ap texts cc
made_of AstarteType.binary_blob_array (blobs x) y e = ap blobs cc
made_of AstarteType.datetime_array (time_points x) y e = ap time_points cc
made_of t v y e = absurd cc

try_into-make :
    (D : Type 0) (t : AstarteType) (x : ValueOf D t) → try_into {D = D} t (make t x) ≡ some x
unfolding try_into make
try_into-make D AstarteType.integer x = refl
try_into-make D AstarteType.long_integer x = refl
try_into-make D AstarteType.double x = refl
try_into-make D AstarteType.boolean x = refl
try_into-make D AstarteType.string x = refl
try_into-make D AstarteType.binary_blob x = refl
try_into-make D AstarteType.datetime x = refl
try_into-make D AstarteType.integer_array x = refl
try_into-make D AstarteType.long_integer_array x = refl
try_into-make D AstarteType.double_array x = refl
try_into-make D AstarteType.boolean_array x = refl
try_into-make D AstarteType.string_array x = refl
try_into-make D AstarteType.binary_blob_array x = refl
try_into-make D AstarteType.datetime_array x = refl

-- The type of a datum tells which accessor finds a value: a datum has the type t exactly where try_into
-- returns some value for t. And try_into returns the value x for t exactly where the datum is the one
-- that the constructor of t makes of x.
pub get_type_iff :
    {D : Type 0} (t : AstarteType) (v : Data D) (x : ValueOf D t)
    → ((get_type v ≡ t) ↔ ((y : ValueOf D t) × (try_into t v ≡ some y)))
      × ((try_into t v ≡ some x) ↔ (v ≡ make t x))
get_type_iff {D = D} t v x = (
  (
    λ e.
        subst (λ t'. (y : ValueOf D t') × (try_into t' v ≡ some y)) e
          (let (y, found, _) = value_of v in (y, found)),
    λ (y, h). ap get_type (made_of t v y h) ∙ get_type-make D t y,
  ),
  (made_of t v x, λ e. ap (try_into t) e ∙ try_into-make D t x),
)
