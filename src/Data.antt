-- ===== src/Data.antt =====
-- include/astarte_device_sdk/type.hpp, ownership.hpp and data.hpp with src/data.cpp: the types of
-- Astarte data, who owns an interface, and the values.
-- `double` is a parameter with its `std::isfinite`; a time point is its count of nanoseconds since
-- the epoch.
pub mod Accessors
pub mod Names
pub mod Tests
use astarte_device_sdk_cpp.Base.{
  ℕ, ◌≡◌, ◌↔◌, refl, arith, Bool, true, false, List, [], ◌∷◌, Text, Option, none, some,
}
use astarte_device_sdk_cpp.Base.Int.{ℤ}

pub data AstarteType : Type 0 where
  binary_blob boolean datetime double integer long_integer string : AstarteType
  binary_blob_array boolean_array datetime_array double_array : AstarteType
  integer_array long_integer_array string_array : AstarteType

AstarteType-discrete : Discrete AstarteType
AstarteType-discrete = hlevel

pub data Ownership : Type 0 where
  device server : Ownership

-- The native floating-point numbers, with `std::isfinite`.
pub record Doubles : Type 1 where
  pub Double : Type 0
  pub is_finite : Double → Bool

-- The variant behind `Data`, in its order.
pub data Data (D : Type 0) : Type 0 where
  int32 int64 : ℤ → Data D
  float64 : D → Data D
  flag : Bool → Data D
  text : Text → Data D
  blob : List ℕ → Data D
  time_point : ℤ → Data D
  int32s int64s : List ℤ → Data D
  float64s : List D → Data D
  flags : List Bool → Data D
  texts : List Text → Data D
  blobs : List (List ℕ) → Data D
  time_points : List ℤ → Data D

module _ {D : Type 0} where
  unfoldable pub get_type : Data D → AstarteType
  get_type (int32 n) = AstarteType.integer
  get_type (int64 n) = AstarteType.long_integer
  get_type (float64 x) = AstarteType.double
  get_type (flag b) = AstarteType.boolean
  get_type (text s) = AstarteType.string
  get_type (blob bs) = AstarteType.binary_blob
  get_type (time_point t) = AstarteType.datetime
  get_type (int32s ns) = AstarteType.integer_array
  get_type (int64s ns) = AstarteType.long_integer_array
  get_type (float64s xs) = AstarteType.double_array
  get_type (flags bs) = AstarteType.boolean_array
  get_type (texts ss) = AstarteType.string_array
  get_type (blobs bs) = AstarteType.binary_blob_array
  get_type (time_points ts) = AstarteType.datetime_array

-- `==` on the two enumerations.
abbrev pub is_yes : {P : Type 0} → Dec P → Bool
is_yes (yes _) = true
is_yes (no _) = false

pub is_yes_iff : {P : Type 0} (d : Dec P) → (is_yes d ≡ true) ↔ P
is_yes_iff (yes p) = (λ e. p, λ e. refl)
is_yes_iff (no np) = (λ e. cc, λ p. absurd (np p))

unfoldable pub same_type : AstarteType → AstarteType → Bool
unfolding AstarteType-discrete
same_type a b = is_yes (AstarteType-discrete a b)

unfoldable pub same_owner : Ownership → Ownership → Bool
same_owner Ownership.device Ownership.device = true
same_owner Ownership.server Ownership.server = true
same_owner _ _ = false

pub same_type_iff : (a b : AstarteType) → (same_type a b ≡ true) ↔ (a ≡ b)
unfolding same_type
same_type_iff a b = is_yes_iff (AstarteType-discrete a b)

pub same_owner_iff : (a b : Ownership) → (same_owner a b ≡ true) ↔ (a ≡ b)
unfolding same_owner
same_owner_iff Ownership.device Ownership.device = (λ e. refl, λ e. refl)
same_owner_iff a b = ground arith
