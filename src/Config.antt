-- ===== src/Config.antt =====
-- src/mqtt/config.cpp and include/astarte_device_sdk/mqtt/config.hpp: the configuration of a device.
use astarte_device_sdk_cpp.Base.{ℕ, Bool, false, Option, none, some, Text, if◌then◌else◌}
use astarte_device_sdk_cpp.Credentials.{Credential, CredentialType, is_credential_secret}

pub record Config : Type 0 where
  pub realm : Text
  pub device_id : Text
  pub pairing_url : Text
  pub credential : Credential
  pub store_dir : Text
  pub ignore_ssl : Bool
  pub keepalive : ℕ
  pub conn_timeout : ℕ
  pub disconn_timeout : ℕ

-- The default times are in seconds, but for the last, which is in milliseconds.
unfoldable pub with_credential_secret : Text → Text → Text → Text → Text → Config
with_credential_secret realm device_id credential pairing_url store_dir = record {
  realm = realm;
  device_id = device_id;
  pairing_url = pairing_url;
  credential = record {
    type = CredentialType.credential_secret;
    credential = credential;
    store_dir = store_dir;
  };
  store_dir = store_dir;
  ignore_ssl = false;
  keepalive = 30;
  conn_timeout = 5;
  disconn_timeout = 1000;
}

unfoldable pub credential_secret_of : Config → Option Text
credential_secret_of cfg =
    if is_credential_secret cfg.credential then some cfg.credential.credential else none
