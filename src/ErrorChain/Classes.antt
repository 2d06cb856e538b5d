-- ===== src/ErrorChain/Classes.antt =====
-- The name of a class tells the class, and has no colon.
use astarte_device_sdk_cpp.Base.{
  Error, Text, Bool, true, not, ◌==◌, ==_iff, List, [], ◌∷◌, Option, none, some, ◌≡◌, ◌↔◌, refl,
  sym, ap, ◌∙◌, all, ℕ, text_eq, Without, if◌then◌else◌, arith,
}
use astarte_device_sdk_cpp.ErrorChain.Nested.{ErrorBase, new_error, new_error_injective}
use astarte_device_sdk_cpp.ErrorChain.{
  class_of, type_name, make_error, Construction, with_message, with_code, without_message,
  made_class, made_message,
}
use astarte_device_sdk_cpp.ErrorChain.Core.{new_grpc_lib_error_code}
use astarte_device_sdk_cpp.ErrorChain.Mqtt.{new_mqtt_error_empty}

classes : List Error
classes =
    Error.data_serialization_error ∷ Error.internal_error ∷ Error.file_open_error
    ∷ Error.invalid_input ∷ Error.operation_refused ∷ Error.grpc_lib_error ∷ Error.msg_hub_error
    ∷ Error.interface_validation_error ∷ Error.invalid_interface_version
    ∷ Error.invalid_interface_type ∷ Error.invalid_interface_ownership
    ∷ Error.invalid_interface_aggregation ∷ Error.invalid_astarte_type ∷ Error.invalid_reliability
    ∷ Error.invalid_retention ∷ Error.invalid_database_retention_policy ∷ Error.mqtt_error
    ∷ Error.pairing_api_error ∷ Error.invalid_url_error ∷ Error.device_registration_error
    ∷ Error.json_parsing_error ∷ Error.retrieve_broker_url_error ∷ Error.read_credential_error
    ∷ Error.write_credential_error ∷ Error.pairing_config_error ∷ Error.crypto_error
    ∷ Error.uuid_error ∷ Error.http_error ∷ Error.mqtt_connection_error ∷ []

class_among : List Error → Text → Option Error
class_among [] s = none
class_among (c ∷ cs) s =
    let rest = class_among cs s in if text_eq (type_name c) s then some c else rest

class_named : Text → Option Error
class_named s = class_among classes s

class_named-type_name : (c : Error) → class_named (type_name c) ≡ some c
unfolding class_named class_among classes type_name class_of text_eq
class_named-type_name Error.data_serialization_error = refl
class_named-type_name Error.internal_error = refl
class_named-type_name Error.file_open_error = refl
class_named-type_name Error.invalid_input = refl
class_named-type_name Error.operation_refused = refl
class_named-type_name Error.grpc_lib_error = refl
class_named-type_name Error.msg_hub_error = refl
class_named-type_name Error.interface_validation_error = refl
class_named-type_name Error.invalid_interface_version = refl
class_named-type_name Error.invalid_interface_type = refl
class_named-type_name Error.invalid_interface_ownership = refl
class_named-type_name Error.invalid_interface_aggregation = refl
class_named-type_name Error.invalid_astarte_type = refl
class_named-type_name Error.invalid_reliability = refl
class_named-type_name Error.invalid_retention = refl
class_named-type_name Error.invalid_database_retention_policy = refl
class_named-type_name Error.mqtt_error = refl
class_named-type_name Error.pairing_api_error = refl
class_named-type_name Error.invalid_url_error = refl
class_named-type_name Error.device_registration_error = refl
class_named-type_name Error.json_parsing_error = refl
class_named-type_name Error.retrieve_broker_url_error = refl
class_named-type_name Error.read_credential_error = refl
class_named-type_name Error.write_credential_error = refl
class_named-type_name Error.pairing_config_error = refl
class_named-type_name Error.crypto_error = refl
class_named-type_name Error.uuid_error = refl
class_named-type_name Error.http_error = refl
class_named-type_name Error.mqtt_connection_error = refl

type_name_injective : (c c' : Error) → type_name c ≡ type_name c' → c ≡ c'
type_name_injective c c' e =
    let p : some c ≡ some c' =
      sym (class_named-type_name c) ∙ ap class_named e ∙ class_named-type_name c' in
    cc

has_none : ℕ → Text → Bool
has_none c s = all (λ d. not (d == c)) s

has_none-Without : (c : ℕ) (s : Text) → has_none c s ≡ true → Without c s
unfolding has_none
has_none-Without c [] h = tt
has_none-Without c (d ∷ s) h = (ground (arith, ==_iff d c), has_none-Without c s (ground arith))

type_name-has_none : (c : Error) → has_none b':' (type_name c) ≡ true
unfolding has_none type_name class_of
type_name-has_none Error.data_serialization_error = refl
type_name-has_none Error.internal_error = refl
type_name-has_none Error.file_open_error = refl
type_name-has_none Error.invalid_input = refl
type_name-has_none Error.operation_refused = refl
type_name-has_none Error.grpc_lib_error = refl
type_name-has_none Error.msg_hub_error = refl
type_name-has_none Error.interface_validation_error = refl
type_name-has_none Error.invalid_interface_version = refl
type_name-has_none Error.invalid_interface_type = refl
type_name-has_none Error.invalid_interface_ownership = refl
type_name-has_none Error.invalid_interface_aggregation = refl
type_name-has_none Error.invalid_astarte_type = refl
type_name-has_none Error.invalid_reliability = refl
type_name-has_none Error.invalid_retention = refl
type_name-has_none Error.invalid_database_retention_policy = refl
type_name-has_none Error.mqtt_error = refl
type_name-has_none Error.pairing_api_error = refl
type_name-has_none Error.invalid_url_error = refl
type_name-has_none Error.device_registration_error = refl
type_name-has_none Error.json_parsing_error = refl
type_name-has_none Error.retrieve_broker_url_error = refl
type_name-has_none Error.read_credential_error = refl
type_name-has_none Error.write_credential_error = refl
type_name-has_none Error.pairing_config_error = refl
type_name-has_none Error.crypto_error = refl
type_name-has_none Error.uuid_error = refl
type_name-has_none Error.http_error = refl
type_name-has_none Error.mqtt_connection_error = refl

pub type_name-Without : (c : Error) → Without b':' (type_name c)
type_name-Without c = has_none-Without b':' (type_name c) (type_name-has_none c)

class_construct :
    (c : Error) (text : Text) (other : Option ErrorBase)
    → make_error (with_message c text) other ≡ new_error (type_name c) text other
unfolding make_error type_name class_of
class_construct Error.data_serialization_error text other = refl
class_construct Error.internal_error text other = refl
class_construct Error.file_open_error text other = refl
class_construct Error.invalid_input text other = refl
class_construct Error.operation_refused text other = refl
class_construct Error.grpc_lib_error text other = refl
class_construct Error.msg_hub_error text other = refl
class_construct Error.interface_validation_error text other = refl
class_construct Error.invalid_interface_version text other = refl
class_construct Error.invalid_interface_type text other = refl
class_construct Error.invalid_interface_ownership text other = refl
class_construct Error.invalid_interface_aggregation text other = refl
class_construct Error.invalid_astarte_type text other = refl
class_construct Error.invalid_reliability text other = refl
class_construct Error.invalid_retention text other = refl
class_construct Error.invalid_database_retention_policy text other = refl
class_construct Error.mqtt_error text other = refl
class_construct Error.pairing_api_error text other = refl
class_construct Error.invalid_url_error text other = refl
class_construct Error.device_registration_error text other = refl
class_construct Error.json_parsing_error text other = refl
class_construct Error.retrieve_broker_url_error text other = refl
class_construct Error.read_credential_error text other = refl
class_construct Error.write_credential_error text other = refl
class_construct Error.pairing_config_error text other = refl
class_construct Error.crypto_error text other = refl
class_construct Error.uuid_error text other = refl
class_construct Error.http_error text other = refl
class_construct Error.mqtt_connection_error text other = refl

pub make_error-new_error :
    (how : Construction) (other : Option ErrorBase)
    → make_error how other ≡ new_error (type_name (made_class how)) (made_message how) other
make_error-new_error (with_message c text) other =
    class_construct c text other ∙ unfold made_class made_message in refl
make_error-new_error (with_code code text) other =
    unfold make_error new_grpc_lib_error_code made_class made_message type_name class_of in refl
make_error-new_error without_message other =
    unfold make_error new_mqtt_error_empty made_class made_message type_name class_of in refl

-- Two calls of constructors make the same error exactly if they are calls for the same class, give the
-- same message and nest the same error, where the call of `GrpcLibError` with a code gives the message
-- that holds the code and the text, and that of `MqttError` without a message gives the empty one. So
-- a call with a code makes the same error as the call with that message.
pub make_error_iff :
    (how how' : Construction) (other other' : Option ErrorBase)
    → (make_error how other ≡ make_error how' other') ↔ (
        (made_class how ≡ made_class how')
        × (made_message how ≡ made_message how')
        × (other ≡ other'))
make_error_iff how how' other other' =
    let made = make_error-new_error how other in
    let made' = make_error-new_error how' other' in
    (
      λ e.
          let (p, q, r) =
            new_error_injective (type_name (made_class how)) (type_name (made_class how'))
              (made_message how) (made_message how') other other' (sym made ∙ e ∙ made') in
          (type_name_injective (made_class how) (made_class how') p, q, r),
      λ (p, q, r). made ∙ same_parts p q r ∙ sym made',
    )
  where
    same_parts :
        {c c' : Error} {text text' : Text} {other other' : Option ErrorBase}
        → c ≡ c'
        → text ≡ text'
        → other ≡ other'
        → new_error (type_name c) text other ≡ new_error (type_name c') text' other'
    same_parts p q r = cc
