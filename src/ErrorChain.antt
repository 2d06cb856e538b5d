-- ===== src/ErrorChain.antt =====
-- The error classes with their messages and the errors they nest: include/astarte_device_sdk/errors.hpp,
-- mqtt/errors.hpp below it, src/errors.cpp and src/mqtt/errors.cpp. The class of an error is an
-- alternative of the variant.
pub mod Nested
pub mod Core
pub mod Mqtt
pub mod Classes
pub mod Printed
pub mod Tests
use astarte_device_sdk_cpp.Base.{Error, Text, Option, ℕ, codes, [], ◌++◌}
use astarte_device_sdk_cpp.Decimal.{to_decimal}
use Nested.{ErrorBase, ErrorClass}
use Core.*
use Mqtt.*

-- The class of each alternative of the variant.
unfoldable pub class_of : Error → ErrorClass
class_of Error.data_serialization_error = data_serialization_error_class
class_of Error.internal_error = internal_error_class
class_of Error.file_open_error = file_open_error_class
class_of Error.invalid_input = invalid_input_error_class
class_of Error.operation_refused = operation_refused_error_class
class_of Error.grpc_lib_error = grpc_lib_error_class
class_of Error.msg_hub_error = msg_hub_error_class
class_of Error.interface_validation_error = interface_validation_error_class
class_of Error.invalid_interface_version = invalid_interface_version_error_class
class_of Error.invalid_interface_type = invalid_interface_type_error_class
class_of Error.invalid_interface_ownership = invalid_interface_ownershipe_error_class
class_of Error.invalid_interface_aggregation = invalid_interface_aggregation_error_class
class_of Error.invalid_astarte_type = invalid_astarte_type_error_class
class_of Error.invalid_reliability = invalid_reliability_error_class
class_of Error.invalid_retention = invalid_retention_error_class
class_of Error.invalid_database_retention_policy = invalid_database_retention_policy_error_class
class_of Error.mqtt_error = mqtt_error_class
class_of Error.pairing_api_error = pairing_api_error_class
class_of Error.invalid_url_error = invalid_url_error_class
class_of Error.device_registration_error = device_registration_error_class
class_of Error.json_parsing_error = json_parsing_error_class
class_of Error.retrieve_broker_url_error = retrieve_broker_url_error_class
class_of Error.read_credential_error = read_credential_error_class
class_of Error.write_credential_error = write_credential_error_class
class_of Error.pairing_config_error = pairing_config_error_class
class_of Error.crypto_error = crypto_error_class
class_of Error.uuid_error = uuid_error_class
class_of Error.http_error = http_error_class
class_of Error.mqtt_connection_error = mqtt_connection_error_class

-- The name that the class gives its errors, and its constructor.
unfoldable pub type_name : Error → Text
type_name c = let class' : ErrorClass = class_of c in class'.k_type

-- The calls of a constructor: of any class with a message, of `GrpcLibError` with a code and a message,
-- and of `MqttError` without either.
pub data Construction : Type 0 where
  with_message : Error → Text → Construction
  with_code : ℕ → Text → Construction
  without_message : Construction

unfoldable pub make_error : Construction → Option ErrorBase → ErrorBase
make_error (with_message c text) other =
    let class' : ErrorClass = class_of c in class'.construct text other
make_error (with_code code text) other = new_grpc_lib_error_code code text other
make_error without_message other = new_mqtt_error_empty other

-- The class that is constructed, and the message of the error.
unfoldable pub made_class : Construction → Error
made_class (with_message c text) = c
made_class (with_code code text) = Error.grpc_lib_error
made_class without_message = Error.mqtt_error

unfoldable pub made_message : Construction → Text
made_message (with_message c text) = text
made_message (with_code code text) =
    codes "code(" ++ to_decimal code ++ codes ")-message(" ++ text ++ codes ")"
made_message without_message = []
