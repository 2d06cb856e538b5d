-- ===== src/Connection/Setup.antt =====
-- src/mqtt/connection/connection.cpp: how a connection is created and connected, with the pairing and
-- the files of the credentials. Whether the call of the client's `connect`, with its wait, ends
-- without an exception is a parameter, and so are the keys that are made.
use astarte_device_sdk_cpp.Base.{
  ℕ, Bool, true, false, not, leb, Option, none, some, List, ◌∷◌, ◌++◌, Text, if◌then◌else◌, Result,
  ok, err, Error, Attempt, exception, returns,
}
use astarte_device_sdk_cpp.Base.Int.{pos}
use astarte_device_sdk_cpp.Json.{JsonLibrary}
use astarte_device_sdk_cpp.Pairing.{
  HttpRequest, HttpClient, UrlLibrary, PairingJson, PairingApi, get_broker_url,
  get_device_key_and_certificate,
}
use astarte_device_sdk_cpp.Pairing
use astarte_device_sdk_cpp.Persistence.{FileSystem, Files}
use astarte_device_sdk_cpp.Credentials.{
  get_device_certificate_path, get_device_key_path, store_device_key_and_certificate,
  validate_client_certificate, delete_client_certificate_and_key,
}
use astarte_device_sdk_cpp.Config.{Config, credential_secret_of}

-- Of the options, those that the configuration decides.
pub record ConnectOptions : Type 0 where
  pub keep_alive_interval : ℕ
  pub connect_timeout : ℕ
  pub key_store : Text
  pub private_key : Text

unfoldable pub build_mqtt_options : Config → Result ConnectOptions
build_mqtt_options cfg =
    if leb cfg.keepalive cfg.conn_timeout
    then err Error.pairing_config_error
    else ok (record {
      keep_alive_interval = cfg.keepalive;
      connect_timeout = cfg.conn_timeout;
      key_store = get_device_certificate_path cfg.store_dir;
      private_key = get_device_key_path cfg.store_dir;
    })

-- A connection that is created.
pub record Created (urls : UrlLibrary) : Type 0 where
  pub cfg : Config
  pub connect_options : ConnectOptions
  pub broker_url : Text
  pub client_id : Text
  pub pairing_api : PairingApi urls

-- The files, and the requests to the pairing service.
pub record World : Type 0 where
  pub files : Files
  pub requests : List HttpRequest

-- A new key in PEM and its signing request, given the requests so far.
abbrev pub KeyMaker : Type 0
KeyMaker = List HttpRequest → Result Text × Result Text

module _ {urls : UrlLibrary} where
  -- The connection that is created with the options, if they could be built.
  abbrev pub connection_of : Config → PairingApi urls → Text → ConnectOptions → Created urls
  connection_of cfg api broker_url options = record {
    cfg = cfg;
    connect_options = options;
    broker_url = broker_url;
    client_id = cfg.realm ++ b'/' ∷ cfg.device_id;
    pairing_api = api;
  }

  abbrev pub with_options :
      Config
      → PairingApi urls
      → Text
      → World
      → Result ConnectOptions
      → World × Attempt (Created urls)
  with_options cfg api broker_url world (err e) = (world, returns (err e))
  with_options cfg api broker_url world (ok options) =
      (world, returns (ok (connection_of cfg api broker_url options)))

  abbrev pub finish_create :
      Config → PairingApi urls → Text → World × Attempt (Unit {0}) → World × Attempt (Created urls)
  finish_create cfg api broker_url (world, exception) = (world, exception)
  finish_create cfg api broker_url (world, returns (err e)) = (world, returns (err e))
  finish_create cfg api broker_url (world, returns (ok _)) =
      with_options cfg api broker_url world (build_mqtt_options cfg)

module _ (fs : FileSystem) where
  abbrev pub store_pair : Text → World → Attempt (Text × Text) → World × Attempt (Unit {0})
  store_pair store_dir world exception = (world, exception)
  store_pair store_dir world (returns (err e)) = (world, returns (err e))
  store_pair store_dir world (returns (ok (device_private_key, device_certificate))) =
      let (files, crypto_setup) =
        store_device_key_and_certificate fs device_private_key device_certificate store_dir
          world.files in
      (record world { files = files }, returns crypto_setup)

  -- The client connects, and the files are deleted; how that ends is not asked.
  abbrev pub connect_client : Bool → Text → World × Attempt (Unit {0}) → World × Attempt (Unit {0})
  connect_client connects store_dir (world, exception) = (world, exception)
  connect_client connects store_dir (world, returns (err e)) = (world, returns (err e))
  connect_client connects store_dir (world, returns (ok _)) =
      if not connects then (world, returns (err Error.mqtt_connection_error)) else (
        record world { files = (delete_client_certificate_and_key fs store_dir world.files).0 },
        returns (ok tt),
      )

module _ {urls : UrlLibrary} (fs : FileSystem) (lib : JsonLibrary) (pairing_json : PairingJson lib)
    (http : HttpClient) (new_key : KeyMaker) where
  -- The request for a certificate, and the storing of what it returns.
  unfoldable pub renew_credentials :
      PairingApi urls → Text → Text → World → World × Attempt (Unit {0})
  renew_credentials api secret store_dir world =
      let (device_priv_key, device_csr) = new_key world.requests in
      let (requests, certificate_key_pair) =
        get_device_key_and_certificate lib pairing_json http api device_priv_key device_csr secret
          (pos 0) world.requests in
      store_pair fs store_dir (record world { requests = requests }) certificate_key_pair

  abbrev pub create_with :
      Config
      → PairingApi urls
      → Text
      → World
      → List HttpRequest × Result Text
      → World × Attempt (Created urls)
  create_with cfg api secret world (requests, err e) =
      (record world { requests = requests }, returns (err e))
  create_with cfg api secret world (requests, ok broker_url) =
      finish_create cfg api broker_url
        (renew_credentials api secret cfg.store_dir (record world { requests = requests }))

  -- The two checks before anything is requested.
  abbrev pub create_from :
      Config → World → Option Text → Result (PairingApi urls) → World × Attempt (Created urls)
  create_from cfg world none res = (world, returns (err Error.mqtt_connection_error))
  create_from cfg world (some credential_secret) (err e) = (world, returns (err e))
  create_from cfg world (some credential_secret) (ok api) =
      create_with cfg api credential_secret world
        (get_broker_url lib pairing_json http api credential_secret (pos 0) world.requests)

  unfoldable pub create : Config → World → World × Attempt (Created urls)
  create cfg world =
      create_from cfg world (credential_secret_of cfg)
        (Pairing.create cfg.realm cfg.device_id cfg.pairing_url)

  abbrev pub renew_if_invalid :
      PairingApi urls
      → Text
      → Text
      → World
      → List HttpRequest × Attempt Bool
      → World × Attempt (Unit {0})
  renew_if_invalid api secret store_dir world (requests, exception) =
      (record world { requests = requests }, exception)
  renew_if_invalid api secret store_dir world (requests, returns (err e)) =
      (record world { requests = requests }, returns (err e))
  renew_if_invalid api secret store_dir world (requests, returns (ok true)) =
      (record world { requests = requests }, returns (ok tt))
  renew_if_invalid api secret store_dir world (requests, returns (ok false)) =
      renew_credentials api secret store_dir (record world { requests = requests })

  unfoldable pub connect : Bool → Created urls → World → World × Attempt (Unit {0})
  connect connects connection world =
      let store_dir = connection.cfg.store_dir in
      elim (credential_secret_of connection.cfg) [
        | none ↦ (world, returns (err Error.mqtt_connection_error))
        | some credential_secret ↦ connect_client fs connects store_dir (
            renew_if_invalid connection.pairing_api credential_secret store_dir world (
              validate_client_certificate fs lib pairing_json http connection.pairing_api
                credential_secret store_dir world.files world.requests))
      ]
