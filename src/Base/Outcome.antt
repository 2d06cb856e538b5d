-- ===== src/Base/Outcome.antt =====
-- The SDK's `expected<T, Error>`: a value or one of the error classes of
-- include/astarte_device_sdk/errors.hpp and include/astarte_device_sdk/mqtt/errors.hpp.
use mathlib.Core.Path.{◌≡◌, refl}
use mathlib.Core.Logic.{◌⊎◌, inl, inr}
use mathlib.Core.Bool.{Bool, true, false}

-- The alternatives of the variant behind `Error`, without their messages.
pub data Error : Type 0 where
  internal_error file_open_error invalid_input operation_refused : Error
  grpc_lib_error msg_hub_error data_serialization_error : Error
  interface_validation_error invalid_interface_version invalid_interface_type : Error
  invalid_interface_ownership invalid_interface_aggregation invalid_astarte_type : Error
  invalid_reliability invalid_retention invalid_database_retention_policy : Error
  mqtt_error pairing_api_error invalid_url_error device_registration_error : Error
  json_parsing_error retrieve_broker_url_error read_credential_error : Error
  write_credential_error pairing_config_error crypto_error uuid_error http_error : Error
  mqtt_connection_error : Error

pub data Result {ℓ} (A : Type ℓ) : Type ℓ where
  err : Error → Result A
  ok : A → Result A

-- A call that may also end in an exception of a library that nobody catches.
pub data Attempt {ℓ} (A : Type ℓ) : Type ℓ where
  exception : Attempt A
  returns : Result A → Attempt A

-- `if (bad) return unexpected(e);`
abbrev pub reject_if : Bool → Error → Result (Unit {0})
reject_if true e = err e
reject_if false e = ok tt

-- `if (!res) return unexpected(res.error());`, and then the value is used.
infixl 5 ◌>>=◌
abbrev pub ◌>>=◌ {ℓ κ} : {T : Type ℓ} {U : Type κ} → Result T → (T → Result U) → Result U
err e >>= next = err e
ok value >>= next = next value

infixl 5 ◌>>◌
abbrev pub ◌>>◌ {κ} : {U : Type κ} → Result (Unit {0}) → Result U → Result U
check >> next = check >>= λ done. next

-- What a chain that succeeds says of its first step.
pub >>=-eq-ok {ℓ κ} :
    {T : Type ℓ} {U : Type κ} (res : Result T) (next : T → Result U) {u : U}
    → (res >>= next) ≡ ok u
    → (value : T) × (res ≡ ok value) × (next value ≡ ok u)
>>=-eq-ok (err e) next h = cc
>>=-eq-ok (ok value) next h = (value, refl, h)

pub Result-cases {ℓ} :
    {A : Type ℓ} (m : Result A) → ((a : A) × (m ≡ ok a)) ⊎ ((e : Error) × (m ≡ err e))
Result-cases (ok a) = inl (a, refl)
Result-cases (err e) = inr (e, refl)

pub ok-injective {ℓ} : {A : Type ℓ} {a b : A} → ok a ≡ ok b → a ≡ b
ok-injective e = cc

pub returns-injective {ℓ} : {A : Type ℓ} {a b : Result A} → returns a ≡ returns b → a ≡ b
returns-injective e = cc

pub reject_if-eq-ok {ℓ} :
    {B : Type ℓ} (bad : Bool) (e : Error) (m : Result B) {b : B}
    → (reject_if bad e >> m) ≡ ok b
    → (bad ≡ false) × (m ≡ ok b)
reject_if-eq-ok true e m h = cc
reject_if-eq-ok false e m h = (refl, h)
