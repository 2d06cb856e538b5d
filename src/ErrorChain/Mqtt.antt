-- ===== src/ErrorChain/Mqtt.antt =====
-- The classes of include/astarte_device_sdk/mqtt/errors.hpp and src/mqtt/errors.cpp: the name of each, and
-- its constructors, the one that nests another error included.
use astarte_device_sdk_cpp.Base.{Text, codes, Option, []}
use astarte_device_sdk_cpp.ErrorChain.Nested.{ErrorBase, ErrorClass, new_error}

abbrev pub mqtt_error_type : Text
mqtt_error_type = codes "MqttError"

abbrev pub new_mqtt_error : Text → Option ErrorBase → ErrorBase
new_mqtt_error message other = new_error mqtt_error_type message other

abbrev pub mqtt_error_class : ErrorClass
mqtt_error_class = record { k_type = mqtt_error_type; construct = new_mqtt_error }

-- The constructors without a message.
unfoldable pub new_mqtt_error_empty : Option ErrorBase → ErrorBase
new_mqtt_error_empty other = new_error mqtt_error_type [] other

abbrev pub pairing_api_error_type : Text
pairing_api_error_type = codes "PairingApiError"

abbrev pub new_pairing_api_error : Text → Option ErrorBase → ErrorBase
new_pairing_api_error message other = new_error pairing_api_error_type message other

abbrev pub pairing_api_error_class : ErrorClass
pairing_api_error_class = record {
  k_type = pairing_api_error_type;
  construct = new_pairing_api_error;
}

abbrev pub invalid_url_error_type : Text
invalid_url_error_type = codes "InvalidUrlError"

abbrev pub new_invalid_url_error : Text → Option ErrorBase → ErrorBase
new_invalid_url_error message other = new_error invalid_url_error_type message other

abbrev pub invalid_url_error_class : ErrorClass
invalid_url_error_class = record {
  k_type = invalid_url_error_type;
  construct = new_invalid_url_error;
}

abbrev pub device_registration_error_type : Text
device_registration_error_type = codes "DeviceRegistrationError"

abbrev pub new_device_registration_error : Text → Option ErrorBase → ErrorBase
new_device_registration_error message other = new_error device_registration_error_type message other

abbrev pub device_registration_error_class : ErrorClass
device_registration_error_class = record {
  k_type = device_registration_error_type;
  construct = new_device_registration_error;
}

abbrev pub json_parsing_error_type : Text
json_parsing_error_type = codes "JsonParsingError"

abbrev pub new_json_parsing_error : Text → Option ErrorBase → ErrorBase
new_json_parsing_error message other = new_error json_parsing_error_type message other

abbrev pub json_parsing_error_class : ErrorClass
json_parsing_error_class = record {
  k_type = json_parsing_error_type;
  construct = new_json_parsing_error;
}

abbrev pub retrieve_broker_url_error_type : Text
retrieve_broker_url_error_type = codes "RetrieveBrokerUrlError"

abbrev pub new_retrieve_broker_url_error : Text → Option ErrorBase → ErrorBase
new_retrieve_broker_url_error message other = new_error retrieve_broker_url_error_type message other

abbrev pub retrieve_broker_url_error_class : ErrorClass
retrieve_broker_url_error_class = record {
  k_type = retrieve_broker_url_error_type;
  construct = new_retrieve_broker_url_error;
}

abbrev pub read_credential_error_type : Text
read_credential_error_type = codes "ReadCredentialError"

abbrev pub new_read_credential_error : Text → Option ErrorBase → ErrorBase
new_read_credential_error message other = new_error read_credential_error_type message other

abbrev pub read_credential_error_class : ErrorClass
read_credential_error_class = record {
  k_type = read_credential_error_type;
  construct = new_read_credential_error;
}

abbrev pub write_credential_error_type : Text
write_credential_error_type = codes "WriteCredentialError"

abbrev pub new_write_credential_error : Text → Option ErrorBase → ErrorBase
new_write_credential_error message other = new_error write_credential_error_type message other

abbrev pub write_credential_error_class : ErrorClass
write_credential_error_class = record {
  k_type = write_credential_error_type;
  construct = new_write_credential_error;
}

abbrev pub pairing_config_error_type : Text
pairing_config_error_type = codes "PairingConfigError"

abbrev pub new_pairing_config_error : Text → Option ErrorBase → ErrorBase
new_pairing_config_error message other = new_error pairing_config_error_type message other

abbrev pub pairing_config_error_class : ErrorClass
pairing_config_error_class = record {
  k_type = pairing_config_error_type;
  construct = new_pairing_config_error;
}

abbrev pub crypto_error_type : Text
crypto_error_type = codes "CryptoError"

abbrev pub new_crypto_error : Text → Option ErrorBase → ErrorBase
new_crypto_error message other = new_error crypto_error_type message other

abbrev pub crypto_error_class : ErrorClass
crypto_error_class = record { k_type = crypto_error_type; construct = new_crypto_error }

abbrev pub uuid_error_type : Text
uuid_error_type = codes "UuidError"

abbrev pub new_uuid_error : Text → Option ErrorBase → ErrorBase
new_uuid_error message other = new_error uuid_error_type message other

abbrev pub uuid_error_class : ErrorClass
uuid_error_class = record { k_type = uuid_error_type; construct = new_uuid_error }

abbrev pub http_error_type : Text
http_error_type = codes "HttpError"

abbrev pub new_http_error : Text → Option ErrorBase → ErrorBase
new_http_error message other = new_error http_error_type message other

abbrev pub http_error_class : ErrorClass
http_error_class = record { k_type = http_error_type; construct = new_http_error }

abbrev pub mqtt_connection_error_type : Text
mqtt_connection_error_type = codes "MqttConnectionError"

abbrev pub new_mqtt_connection_error : Text → Option ErrorBase → ErrorBase
new_mqtt_connection_error message other = new_error mqtt_connection_error_type message other

abbrev pub mqtt_connection_error_class : ErrorClass
mqtt_connection_error_class = record {
  k_type = mqtt_connection_error_type;
  construct = new_mqtt_connection_error;
}
