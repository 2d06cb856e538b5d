-- ===== src/Connection/Creation.antt =====
-- What a connection's creation brings about.
use astarte_device_sdk_cpp.Base.{
  ◌≡◌, ◌<◌, ◌≤◌, refl, sym, ap, subst, Option, none, some, List, ◌∷◌, ◌++◌, Text, Result, ok, err,
  Attempt, exception, returns, returns-injective, Error, ok-injective, arith,
}
use astarte_device_sdk_cpp.Base.Int.{pos}
use astarte_device_sdk_cpp.Json.{JsonLibrary}
use astarte_device_sdk_cpp.Pairing.{
  HttpRequest, HttpClient, UrlLibrary, PairingJson, PairingApi, get_broker_url,
  get_device_key_and_certificate,
}
use astarte_device_sdk_cpp.Pairing
use astarte_device_sdk_cpp.Persistence.{FileSystem}
use astarte_device_sdk_cpp.Credentials.{get_device_certificate_path, get_device_key_path}
use astarte_device_sdk_cpp.Credentials.Storing.{Takes, Holds, store-Holds}
use astarte_device_sdk_cpp.Config.{Config, credential_secret_of}
use astarte_device_sdk_cpp.Connection.Setup.{
  ConnectOptions, build_mqtt_options, with_options, create_from, Created, World, KeyMaker,
  store_pair, renew_credentials, finish_create, create_with, create,
}

-- The options of a configuration whose interval is longer than its timeout.
abbrev pub options_of : Config → ConnectOptions
options_of cfg = record {
  keep_alive_interval = cfg.keepalive;
  connect_timeout = cfg.conn_timeout;
  key_store = get_device_certificate_path cfg.store_dir;
  private_key = get_device_key_path cfg.store_dir;
}

build_mqtt_options_inv :
    (cfg : Config) (options : ConnectOptions)
    → build_mqtt_options cfg ≡ ok options
    → (cfg.conn_timeout < cfg.keepalive) × (options ≡ options_of cfg)
unfolding build_mqtt_options
build_mqtt_options_inv cfg options h = ground arith

build_mqtt_options_of_short :
    (cfg : Config)
    → cfg.keepalive ≤ cfg.conn_timeout
    → build_mqtt_options cfg ≡ err Error.pairing_config_error
unfolding build_mqtt_options
build_mqtt_options_of_short cfg h = ground arith

-- A connection that could be created from a configuration.
pub record Suits {urls : UrlLibrary} (cfg : Config) (connection : Created urls) : Type 0 where
  pub has_secret : (secret : Text) × (credential_secret_of cfg ≡ some secret)
  pub keeps_alive : cfg.conn_timeout < cfg.keepalive
  pub options : connection.connect_options ≡ options_of cfg
  pub configuration : connection.cfg ≡ cfg
  pub client : connection.client_id ≡ cfg.realm ++ b'/' ∷ cfg.device_id

module _ {urls : UrlLibrary} (cfg : Config) (api : PairingApi urls) (secret broker_url : Text)
    (s : credential_secret_of cfg ≡ some secret) where
  with_options-Suits :
      (world : World) (r : Result ConnectOptions) (connection : Created urls)
      → build_mqtt_options cfg ≡ r
      → (with_options cfg api broker_url world r).1 ≡ returns (ok connection)
      → Suits cfg connection
  with_options-Suits world (err e) connection b h = absurd cc
  with_options-Suits world (ok options) connection b h =
      let (k, o) = build_mqtt_options_inv cfg options b in
      subst (Suits cfg) (ok-injective (returns-injective h)) (record {
        has_secret = (secret, s);
        keeps_alive = k;
        options = o;
        configuration = refl;
        client = refl;
      })

  finish_create-Suits :
      (stored : World × Attempt (Unit {0})) (connection : Created urls)
      → (finish_create cfg api broker_url stored).1 ≡ returns (ok connection)
      → Suits cfg connection
  finish_create-Suits (world, exception) connection h = absurd cc
  finish_create-Suits (world, returns (err e)) connection h = absurd cc
  finish_create-Suits (world, returns (ok _)) connection h =
      with_options-Suits world (build_mqtt_options cfg) connection refl h

store_pair-Holds :
    (fs : FileSystem) (key cert store_dir : Text) (world : World) (pair : Attempt (Text × Text))
    → pair ≡ returns (ok (key, cert))
    → Takes fs (get_device_certificate_path store_dir) cert
    → Takes fs (get_device_key_path store_dir) key
    → (let result = store_pair fs store_dir world pair in
        (result.1 ≡ returns (ok tt)) × Holds store_dir cert key result.0.files)
store_pair-Holds fs key cert store_dir world pair e hc hk =
    subst
      (λ p.
        (let result = store_pair fs store_dir world p in
          (result.1 ≡ returns (ok tt)) × Holds store_dir cert key result.0.files))
      (sym e)
      (let (stored, holds) = store-Holds fs key cert store_dir world.files hc hk in
        (ap returns stored, holds))

module _ {urls : UrlLibrary} (fs : FileSystem) (lib : JsonLibrary) (pairing_json : PairingJson lib)
    (http : HttpClient) (new_key : KeyMaker) where
  create_with-Suits :
      (cfg : Config) (api : PairingApi urls) (secret : Text) (world : World)
      (asked : List HttpRequest × Result Text) (connection : Created urls)
      → credential_secret_of cfg ≡ some secret
      → (create_with fs lib pairing_json http new_key cfg api secret world asked).1
        ≡ returns (ok connection)
      → Suits cfg connection
  create_with-Suits cfg api secret world (requests, err e) connection s h = absurd cc
  create_with-Suits cfg api secret world (requests, ok url) connection s h =
      finish_create-Suits cfg api secret url s _ connection h

  create_from-Suits :
      (cfg : Config) (world : World) (opt : Option Text) (res : Result (PairingApi urls))
      (connection : Created urls)
      → credential_secret_of cfg ≡ opt
      → (create_from fs lib pairing_json http new_key cfg world opt res).1 ≡ returns (ok connection)
      → Suits cfg connection
  create_from-Suits cfg world none res connection s h = absurd cc
  create_from-Suits cfg world (some secret) (err e) connection s h = absurd cc
  create_from-Suits cfg world (some secret) (ok api) connection s h =
      create_with-Suits cfg api secret world _ connection s h

  -- A connection is created only from a configuration with a credential secret, whose keep-alive
  -- interval is longer than its connection timeout; it has exactly these times, takes the key and the
  -- certificate from the files of the store directory, and identifies itself by realm and device.
  pub create-Suits :
      (cfg : Config) (world : World) (connection : Created urls)
      → (create fs lib pairing_json http new_key cfg world).1 ≡ returns (ok connection)
      → Suits cfg connection
  unfolding create
  create-Suits cfg world connection h =
      create_from-Suits cfg world (credential_secret_of cfg) _ connection refl h

  finish_create_of_short :
      (cfg : Config) (api : PairingApi urls) (url : Text) (stored : World × Attempt (Unit {0}))
      → cfg.keepalive ≤ cfg.conn_timeout
      → stored.1 ≡ returns (ok tt)
      → finish_create cfg api url stored ≡ (stored.0, returns (err Error.pairing_config_error))
  finish_create_of_short cfg api url (world, exception) short h = absurd cc
  finish_create_of_short cfg api url (world, returns (err e)) short h = absurd cc
  finish_create_of_short cfg api url (world, returns (ok _)) short h =
      ap (with_options cfg api url world) (build_mqtt_options_of_short cfg short)

  create_with-Left :
      (cfg : Config) (api : PairingApi urls) (secret : Text) (world : World) (url key cert : Text)
      (asked : List HttpRequest × Result Text)
      → asked.1 ≡ ok url
      → ((get_device_key_and_certificate lib pairing_json http api
            (new_key asked.0).0
            (new_key asked.0).1
            secret
            (pos 0)
            asked.0).1
          ≡ returns (ok (key, cert)))
      → Takes fs (get_device_certificate_path cfg.store_dir) cert
      → Takes fs (get_device_key_path cfg.store_dir) key
      → cfg.keepalive ≤ cfg.conn_timeout
      → (let result = create_with fs lib pairing_json http new_key cfg api secret world asked in
          (result.1 ≡ returns (err Error.pairing_config_error))
          × Holds cfg.store_dir cert key result.0.files)
  unfolding renew_credentials
  create_with-Left cfg api secret world url key cert (requests, err e) b c hc hk short = absurd cc
  create_with-Left cfg api secret world url key cert (requests, ok u) b c hc hk short =
      let result =
        get_device_key_and_certificate lib pairing_json http api (new_key requests).0
          (new_key requests).1 secret (pos 0) requests in
      let (stored, holds) =
        store_pair-Holds fs key cert cfg.store_dir (record world { requests = result.0 }) result.1 c
          hc hk in
      subst
        (λ r.
          (r.1 ≡ returns (err Error.pairing_config_error)) × Holds cfg.store_dir cert key r.0.files)
        (sym (
          finish_create_of_short cfg api u
            (store_pair fs cfg.store_dir (record world { requests = result.0 }) result.1) short
            stored))
        (refl, holds)

  -- A keep-alive interval that is not longer than the connection timeout is an error only after the
  -- pairing service has issued a certificate and the key and the certificate stand in their files,
  -- where they stay: if the credential secret, the URL, both answers of the service and both files
  -- are fine.
  pub create_of_short-Holds :
      (cfg : Config) (world : World) (api : PairingApi urls) (secret url key cert : Text)
      → credential_secret_of cfg ≡ some secret
      → Pairing.create cfg.realm cfg.device_id cfg.pairing_url ≡ ok api
      → (get_broker_url lib pairing_json http api secret (pos 0) world.requests).1 ≡ ok url
      → (let requests =
            (get_broker_url lib pairing_json http api secret (pos 0) world.requests).0 in
          (get_device_key_and_certificate lib pairing_json http api
            (new_key requests).0
            (new_key requests).1
            secret
            (pos 0)
            requests).1
          ≡ returns (ok (key, cert)))
      → Takes fs (get_device_certificate_path cfg.store_dir) cert
      → Takes fs (get_device_key_path cfg.store_dir) key
      → cfg.keepalive ≤ cfg.conn_timeout
      → (let result = create {urls = urls} fs lib pairing_json http new_key cfg world in
          (result.1 ≡ returns (err Error.pairing_config_error))
          × Holds cfg.store_dir cert key result.0.files)
  unfolding create
  create_of_short-Holds cfg world api secret url key cert s a b c hc hk short =
      subst
        (λ o. Left (
          create_from fs lib pairing_json http new_key cfg world o
            (Pairing.create cfg.realm cfg.device_id cfg.pairing_url)))
        (sym s)
        (subst (λ r. Left (create_from fs lib pairing_json http new_key cfg world (some secret) r))
          (sym a)
          (create_with-Left cfg api secret world url key cert
            (get_broker_url lib pairing_json http api secret (pos 0) world.requests) b c hc hk
            short))
    where
      Left : World × Attempt (Created urls) → Type 0
      Left result =
          (result.1 ≡ returns (err Error.pairing_config_error))
          × Holds cfg.store_dir cert key result.0.files
