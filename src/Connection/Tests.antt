-- ===== src/Connection/Tests.antt =====
-- A service that answers every request with the same text, and a configuration with the default
-- times and one with equal times.
use astarte_device_sdk_cpp.Base.{
  ◌≡◌, refl, true, false, none, some, [], Text, codes, ok, err, returns, Error, arith,
}
use astarte_device_sdk_cpp.Base.Int.{pos}
use astarte_device_sdk_cpp.Json.{Kind, JsonLibrary}
use astarte_device_sdk_cpp.Pairing.{
  HttpClient, UrlLibrary, PairingJson, PairingApi, is_successful, text_of, parse_json,
  get_broker_url, get_device_key_and_certificate,
}
use astarte_device_sdk_cpp.Pairing
use astarte_device_sdk_cpp.Persistence.{write_to_file}
use astarte_device_sdk_cpp.Persistence.Tests.{reliable}
use astarte_device_sdk_cpp.Persistence.Deletion.{Obeys}
use astarte_device_sdk_cpp.Credentials.{write_all, validate_client_certificate}
use astarte_device_sdk_cpp.Credentials.Deleting.{HasNoCredentials}
use astarte_device_sdk_cpp.Connection.Disposal.{connect-HasNoCredentials}
use astarte_device_sdk_cpp.Credentials.Storing.{Holds}
use astarte_device_sdk_cpp.Credentials.Tests.{no_files, reliable-Takes}
use astarte_device_sdk_cpp.Config.{Config, with_credential_secret, credential_secret_of}
use astarte_device_sdk_cpp.Connection.Setup.{
  Created, World, KeyMaker, build_mqtt_options, renew_credentials, connection_of, create, connect,
}
use astarte_device_sdk_cpp.Connection.Creation.{
  options_of, Suits, create-Suits, create_of_short-Holds,
}

-- JSON that is one text.
abbrev pub texts : JsonLibrary
texts = record {
  Json = Text;
  kind = λ j. Kind.string;
  find = λ j key. none;
  get_text = λ j. j;
  get_int64 = λ j. pos 0;
  get_bool = λ j. true;
  elements = λ j. [];
}

abbrev pub same_text : PairingJson texts
same_text = record {
  parse = λ text. text;
  at_pointer = λ j path. some j;
  dump_data = λ key value. some value;
}

abbrev pub texts_as_urls : UrlLibrary
texts_as_urls = record {
  Url = Text;
  parse = λ text. some text;
  set_pathname = λ path url. path;
  get_pathname = λ url. url;
  get_href = λ url. url;
}

abbrev pub answering : HttpClient
answering before r = record { error = false; status_code = 201; text = codes "x" }

abbrev pub one_key : KeyMaker
one_key before = (ok (codes "key"), ok (codes "csr"))

abbrev pub world : World
world = record { files = no_files; requests = [] }

abbrev pub default : Config
default = with_credential_secret (codes "r") (codes "i") (codes "s") (codes "u") (codes "d")

abbrev short : Config
short = record default { keepalive = 5 }

abbrev pub api : PairingApi texts_as_urls
api = record { realm = codes "r"; device_id = codes "i"; pairing_url = codes "pairing" }

abbrev pub created : Created texts_as_urls
created = connection_of default api (codes "x") (options_of default)

creation :
    (create reliable texts same_text answering one_key default world).1 ≡ returns (ok created)
unfolding create with_credential_secret credential_secret_of build_mqtt_options renew_credentials
    Pairing.create get_broker_url get_device_key_and_certificate text_of is_successful parse_json
    write_all write_to_file
creation = refl

create-Suits_example : Suits default created
create-Suits_example =
    create-Suits reliable texts same_text answering one_key default world created creation

-- What the service answers while the short configuration is tried.
has_secret : credential_secret_of short ≡ some (codes "s")
unfolding credential_secret_of with_credential_secret
has_secret = refl

has_api : Pairing.create (codes "r") (codes "i") (codes "u") ≡ ok api
unfolding Pairing.create
has_api = refl

has_url : (get_broker_url texts same_text answering api (codes "s") (pos 0) []).1 ≡ ok (codes "x")
unfolding get_broker_url text_of is_successful parse_json
has_url = refl

has_pair :
    (let requests = (get_broker_url texts same_text answering api (codes "s") (pos 0) []).0 in
      (get_device_key_and_certificate texts same_text answering api
        (one_key requests).0
        (one_key requests).1
        (codes "s")
        (pos 0)
        requests).1
      ≡ returns (ok (codes "key", codes "x")))
unfolding get_broker_url get_device_key_and_certificate text_of is_successful parse_json
has_pair = refl

create_of_short-Holds_example :
    (let result =
        create {urls = texts_as_urls} reliable texts same_text answering one_key short world in
      (result.1 ≡ returns (err Error.pairing_config_error))
      × Holds short.store_dir (codes "x") (codes "key") result.0.files)
unfolding with_credential_secret
create_of_short-Holds_example =
    create_of_short-Holds reliable texts same_text answering one_key short world api (codes "s")
      (codes "x") (codes "key") (codes "x") has_secret has_api has_url has_pair (reliable-Takes _ _)
      (reliable-Takes _ _) (omega arith)

reliable-Obeys : (path : Text) → Obeys reliable path
reliable-Obeys path = record {
  opens = refl;
  seeks = refl;
  tells = refl;
  rewinds = refl;
  writes = λ offset count. omega arith;
  flushes = refl;
  syncs = refl;
  closes = refl;
  removes = refl;
}

connection_succeeds :
    (connect reliable texts same_text answering one_key true created world).1
    ≡ returns (ok (tt {0}))
unfolding connect with_credential_secret credential_secret_of renew_credentials
    validate_client_certificate get_device_key_and_certificate text_of is_successful parse_json
    write_all write_to_file
connection_succeeds = refl

connect-HasNoCredentials_example :
    HasNoCredentials created.cfg.store_dir
      (connect reliable texts same_text answering one_key true created world).0.files
connect-HasNoCredentials_example =
    connect-HasNoCredentials reliable texts same_text answering one_key true created world
      (reliable-Obeys _, reliable-Obeys _) connection_succeeds
