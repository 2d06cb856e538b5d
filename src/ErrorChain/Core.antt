-- ===== src/ErrorChain/Core.antt =====
-- The classes of include/astarte_device_sdk/errors.hpp and src/errors.cpp: the name of each, and
-- its constructors, the one that nests another error included.
use astarte_device_sdk_cpp.Base.{Text, codes, Option, ◌++◌, ℕ}
use astarte_device_sdk_cpp.Decimal.{to_decimal}
use astarte_device_sdk_cpp.ErrorChain.Nested.{ErrorBase, ErrorClass, new_error}

abbrev pub data_serialization_error_type : Text
data_serialization_error_type = codes "DataSerializationError"

abbrev pub new_data_serialization_error : Text → Option ErrorBase → ErrorBase
new_data_serialization_error message other = new_error data_serialization_error_type message other

abbrev pub data_serialization_error_class : ErrorClass
data_serialization_error_class = record {
  k_type = data_serialization_error_type;
  construct = new_data_serialization_error;
}

abbrev pub internal_error_type : Text
internal_error_type = codes "InternalError"

abbrev pub new_internal_error : Text → Option ErrorBase → ErrorBase
new_internal_error message other = new_error internal_error_type message other

abbrev pub internal_error_class : ErrorClass
internal_error_class = record { k_type = internal_error_type; construct = new_internal_error }

abbrev pub file_open_error_type : Text
file_open_error_type = codes "FileOpenError"

abbrev pub new_file_open_error : Text → Option ErrorBase → ErrorBase
new_file_open_error message other = new_error file_open_error_type message other

abbrev pub file_open_error_class : ErrorClass
file_open_error_class = record { k_type = file_open_error_type; construct = new_file_open_error }

abbrev pub invalid_input_error_type : Text
invalid_input_error_type = codes "InvalidInputError"

abbrev pub new_invalid_input_error : Text → Option ErrorBase → ErrorBase
new_invalid_input_error message other = new_error invalid_input_error_type message other

abbrev pub invalid_input_error_class : ErrorClass
invalid_input_error_class = record {
  k_type = invalid_input_error_type;
  construct = new_invalid_input_error;
}

abbrev pub operation_refused_error_type : Text
operation_refused_error_type = codes "OperationRefusedError"

abbrev pub new_operation_refused_error : Text → Option ErrorBase → ErrorBase
new_operation_refused_error message other = new_error operation_refused_error_type message other

abbrev pub operation_refused_error_class : ErrorClass
operation_refused_error_class = record {
  k_type = operation_refused_error_type;
  construct = new_operation_refused_error;
}

abbrev pub grpc_lib_error_type : Text
grpc_lib_error_type = codes "GrpcLibError"

abbrev pub new_grpc_lib_error : Text → Option ErrorBase → ErrorBase
new_grpc_lib_error message other = new_error grpc_lib_error_type message other

abbrev pub grpc_lib_error_class : ErrorClass
grpc_lib_error_class = record { k_type = grpc_lib_error_type; construct = new_grpc_lib_error }

-- The constructors with a code.
unfoldable pub new_grpc_lib_error_code : ℕ → Text → Option ErrorBase → ErrorBase
new_grpc_lib_error_code code message other =
    new_error grpc_lib_error_type
      (codes "code(" ++ to_decimal code ++ codes ")-message(" ++ message ++ codes ")") other

abbrev pub msg_hub_error_type : Text
msg_hub_error_type = codes "MsgHubError"

abbrev pub new_msg_hub_error : Text → Option ErrorBase → ErrorBase
new_msg_hub_error message other = new_error msg_hub_error_type message other

abbrev pub msg_hub_error_class : ErrorClass
msg_hub_error_class = record { k_type = msg_hub_error_type; construct = new_msg_hub_error }

abbrev pub interface_validation_error_type : Text
interface_validation_error_type = codes "InterfaceValidationError"

abbrev pub new_interface_validation_error : Text → Option ErrorBase → ErrorBase
new_interface_validation_error message other =
    new_error interface_validation_error_type message other

abbrev pub interface_validation_error_class : ErrorClass
interface_validation_error_class = record {
  k_type = interface_validation_error_type;
  construct = new_interface_validation_error;
}

abbrev pub invalid_interface_version_error_type : Text
invalid_interface_version_error_type = codes "InvalidInterfaceVersionError"

abbrev pub new_invalid_interface_version_error : Text → Option ErrorBase → ErrorBase
new_invalid_interface_version_error message other =
    new_error invalid_interface_version_error_type message other

abbrev pub invalid_interface_version_error_class : ErrorClass
invalid_interface_version_error_class = record {
  k_type = invalid_interface_version_error_type;
  construct = new_invalid_interface_version_error;
}

abbrev pub invalid_interface_type_error_type : Text
invalid_interface_type_error_type = codes "InvalidInterfaceTypeError"

abbrev pub new_invalid_interface_type_error : Text → Option ErrorBase → ErrorBase
new_invalid_interface_type_error message other =
    new_error invalid_interface_type_error_type message other

abbrev pub invalid_interface_type_error_class : ErrorClass
invalid_interface_type_error_class = record {
  k_type = invalid_interface_type_error_type;
  construct = new_invalid_interface_type_error;
}

abbrev pub invalid_interface_ownershipe_error_type : Text
invalid_interface_ownershipe_error_type = codes "InvalidInterfaceOwnershipeError"

abbrev pub new_invalid_interface_ownershipe_error : Text → Option ErrorBase → ErrorBase
new_invalid_interface_ownershipe_error message other =
    new_error invalid_interface_ownershipe_error_type message other

abbrev pub invalid_interface_ownershipe_error_class : ErrorClass
invalid_interface_ownershipe_error_class = record {
  k_type = invalid_interface_ownershipe_error_type;
  construct = new_invalid_interface_ownershipe_error;
}

abbrev pub invalid_interface_aggregation_error_type : Text
invalid_interface_aggregation_error_type = codes "InvalidInterfaceAggregationError"

abbrev pub new_invalid_interface_aggregation_error : Text → Option ErrorBase → ErrorBase
new_invalid_interface_aggregation_error message other =
    new_error invalid_interface_aggregation_error_type message other

abbrev pub invalid_interface_aggregation_error_class : ErrorClass
invalid_interface_aggregation_error_class = record {
  k_type = invalid_interface_aggregation_error_type;
  construct = new_invalid_interface_aggregation_error;
}

abbrev pub invalid_astarte_type_error_type : Text
invalid_astarte_type_error_type = codes "InvalidAstarteTypeError"

abbrev pub new_invalid_astarte_type_error : Text → Option ErrorBase → ErrorBase
new_invalid_astarte_type_error message other =
    new_error invalid_astarte_type_error_type message other

abbrev pub invalid_astarte_type_error_class : ErrorClass
invalid_astarte_type_error_class = record {
  k_type = invalid_astarte_type_error_type;
  construct = new_invalid_astarte_type_error;
}

abbrev pub invalid_reliability_error_type : Text
invalid_reliability_error_type = codes "InvalidReliabilityError"

abbrev pub new_invalid_reliability_error : Text → Option ErrorBase → ErrorBase
new_invalid_reliability_error message other = new_error invalid_reliability_error_type message other

abbrev pub invalid_reliability_error_class : ErrorClass
invalid_reliability_error_class = record {
  k_type = invalid_reliability_error_type;
  construct = new_invalid_reliability_error;
}

abbrev pub invalid_retention_error_type : Text
invalid_retention_error_type = codes "InvalidRetentionError"

abbrev pub new_invalid_retention_error : Text → Option ErrorBase → ErrorBase
new_invalid_retention_error message other = new_error invalid_retention_error_type message other

abbrev pub invalid_retention_error_class : ErrorClass
invalid_retention_error_class = record {
  k_type = invalid_retention_error_type;
  construct = new_invalid_retention_error;
}

abbrev pub invalid_database_retention_policy_error_type : Text
invalid_database_retention_policy_error_type = codes "InvalidDatabaseRetentionPolicyError"

abbrev pub new_invalid_database_retention_policy_error : Text → Option ErrorBase → ErrorBase
new_invalid_database_retention_policy_error message other =
    new_error invalid_database_retention_policy_error_type message other

abbrev pub invalid_database_retention_policy_error_class : ErrorClass
invalid_database_retention_policy_error_class = record {
  k_type = invalid_database_retention_policy_error_type;
  construct = new_invalid_database_retention_policy_error;
}
