-- ===== src/Pairing.antt =====
-- src/mqtt/pairing.cpp: the requests to the pairing service and the device's identifiers. The URL
-- library, the HTTP client, the JSON library and the making of keys and UUIDs are parameters. The
-- HTTP client answers a request, given those before it.
pub mod Answers
pub mod Tests
use astarte_device_sdk_cpp.Base.{
  ℕ, ◌/◌, ◌%◌, Bool, true, false, not, ◌==◌, Option, none, some, List, [], ◌∷◌, ◌++◌, Text, codes,
  if◌then◌else◌, Result, ok, err, ◌>>=◌, Error, Attempt, exception, returns,
}
use astarte_device_sdk_cpp.Base.Int.{ℤ}
use astarte_device_sdk_cpp.Json.{Kind, same_kind, JsonLibrary}
use astarte_device_sdk_cpp.Base64.{format_base64_url_safe}

-- A request with a body is a POST with JSON content, and one without a GET.
pub record HttpRequest : Type 0 where
  pub url : Text
  pub bearer : Text
  pub body : Option Text
  pub timeout_ms : ℤ

pub record HttpResponse : Type 0 where
  pub error : Bool
  pub status_code : ℕ
  pub text : Text

abbrev pub HttpClient : Type 0
HttpClient = List HttpRequest → HttpRequest → HttpResponse

-- `ada`: `set_pathname` is given the new path first.
pub record UrlLibrary : Type 1 where
  pub Url : Type 0
  pub parse : Text → Option Url
  pub set_pathname : Text → Url → Url
  pub get_pathname : Url → Text
  pub get_href : Url → Text

-- What the pairing uses of JSON besides the kinds: `parse` without exceptions, a look-up by a
-- pointer (`contains` and `[]`), and the text of an object "data" with one field, or nothing where
-- `dump` throws.
pub record PairingJson (lib : JsonLibrary) : Type 0 where
  pub parse : Text → lib.Json
  pub at_pointer : lib.Json → Text → Option lib.Json
  pub dump_data : Text → Text → Option Text

-- The division and the cast of the category to 8 bits.
unfoldable pub is_successful : ℕ → Bool
is_successful status_code = status_code / 100 % 256 == 2

module _ (lib : JsonLibrary) (pairing_json : PairingJson lib) where
  open lib use {Json, kind}
  open pairing_json use {parse, at_pointer}

  -- `parse_json<T>`: the kind and the reading are those of the traits of T.
  unfoldable pub parse_json {ℓ} : {T : Type ℓ} → Kind → (Json → T) → Text → Text → Result T
  parse_json expected get text path =
      let text_json = parse text in
      if same_kind (kind text_json) Kind.discarded
      then err Error.json_parsing_error
      else elim (at_pointer text_json path) [
        | none ↦ err Error.json_parsing_error
        | some value ↦
            if same_kind (kind value) expected then ok (get value) else err Error.json_parsing_error
      ]

-- The text of a response that is neither an error of the client nor a failure of the service.
unfoldable pub text_of : HttpResponse → Result Text
text_of res =
    if res.error
    then err Error.mqtt_error
    else if not (is_successful res.status_code)
    then err Error.mqtt_error
    else ok res.text

-- `transform_error` into an error of the pairing.
abbrev pub as_pairing_error {ℓ} : {T : Type ℓ} → Result T → Result T
as_pairing_error (ok value) = ok value
as_pairing_error (err e) = err Error.mqtt_error

-- A request, and what is read from the text of its response.
abbrev pub exchange {ℓ} :
    {T : Type ℓ}
    → HttpClient
    → HttpRequest
    → (Text → Result T)
    → List HttpRequest
    → List HttpRequest × Result T
exchange http r read requests = (requests ++ r ∷ [], text_of (http requests r) >>= read)

-- What an exchange returns.
abbrev pub returned {ℓ} : {T : Type ℓ} → List HttpRequest × Result T → List HttpRequest × Attempt T
returned (requests, outcome) = (requests, returns outcome)

-- A request with a body, which is dumped first: where that throws, nothing is requested.
abbrev pub with_body {ℓ} :
    {T : Type ℓ}
    → Option Text
    → (Text → List HttpRequest → List HttpRequest × Result T)
    → List HttpRequest
    → List HttpRequest × Attempt T
with_body none exchange_body requests = (requests, exception)
with_body (some body) exchange_body requests = returned (exchange_body body requests)

pub record PairingApi (urls : UrlLibrary) : Type 0 where
  pub realm : Text
  pub device_id : Text
  pub pairing_url : urls.Url

module _ {urls : UrlLibrary} where
  open urls use {set_pathname, get_pathname, get_href}

  unfoldable pub create : Text → Text → Text → Result (PairingApi urls)
  create realm device_id astarte_base_url = elim (urls.parse astarte_base_url) [
    | none ↦ err Error.mqtt_error
    | some parsed_url ↦ ok (record {
      realm = realm;
      device_id = device_id;
      pairing_url = set_pathname (codes "pairing") parsed_url;
    })
  ]

  -- The address "{pairing}/v1/{realm}{rest}".
  abbrev pub request_url : PairingApi urls → Text → Text
  request_url api rest =
      let path = get_pathname api.pairing_url ++ codes "/v1/" ++ api.realm ++ rest in
      get_href (set_pathname path api.pairing_url)

  -- "/devices/{device_id}{rest}".
  abbrev pub device_path : PairingApi urls → Text → Text
  device_path api rest = codes "/devices/" ++ api.device_id ++ rest

  module _ (lib : JsonLibrary) (pairing_json : PairingJson lib) (http : HttpClient) where
    open lib use {get_text, get_bool}
    open pairing_json use {dump_data}

    unfoldable pub register_device :
        PairingApi urls → Text → ℤ → List HttpRequest → List HttpRequest × Attempt Text
    register_device api pairing_token timeout_ms requests =
        with_body (dump_data (codes "hw_id") api.device_id)
          (λ body.
            exchange http
              (record {
                url = request_url api (codes "/agent/devices");
                bearer = pairing_token;
                body = some body;
                timeout_ms = timeout_ms;
              })
              (λ text.
                parse_json lib pairing_json Kind.string get_text text
                  (codes "/data/credentials_secret")))
          requests

    unfoldable pub get_broker_url :
        PairingApi urls → Text → ℤ → List HttpRequest → List HttpRequest × Result Text
    get_broker_url api credential_secret timeout_ms requests =
        exchange http
          (record {
            url = request_url api (device_path api []);
            bearer = credential_secret;
            body = none;
            timeout_ms = timeout_ms;
          })
          (λ text.
            parse_json lib pairing_json Kind.string get_text text
              (codes "/data/protocols/astarte_mqtt_v1/broker_url"))
          requests

    -- The key in PEM and its signing request (`PsaKey`, `Crypto::create_csr`) are parameters; the
    -- request is made only if both are there.
    unfoldable pub get_device_key_and_certificate :
        PairingApi urls
        → Result Text
        → Result Text
        → Text
        → ℤ
        → List HttpRequest
        → List HttpRequest × Attempt (Text × Text)
    get_device_key_and_certificate api (err e) device_csr credential_secret timeout_ms requests =
        (requests, returns (err e))
    get_device_key_and_certificate api (ok device_priv_key) (err e) credential_secret timeout_ms
          requests =
        (requests, returns (err Error.mqtt_error))
    get_device_key_and_certificate api (ok device_priv_key) (ok device_csr) credential_secret
          timeout_ms requests =
        with_body (dump_data (codes "csr") device_csr)
          (λ body.
            exchange http
              (record {
                url =
                    request_url api
                      (device_path api (codes "/protocols/astarte_mqtt_v1/credentials"));
                bearer = credential_secret;
                body = some body;
                timeout_ms = timeout_ms;
              })
              (λ text.
                as_pairing_error
                  (parse_json lib pairing_json Kind.string get_text text (codes "/data/client_crt"))
                >>= λ cert. ok (device_priv_key, cert)))
          requests

    unfoldable pub device_cert_valid :
        PairingApi urls → Text → Text → ℤ → List HttpRequest → List HttpRequest × Attempt Bool
    device_cert_valid api certificate credential_secret timeout_ms requests =
        with_body (dump_data (codes "client_crt") certificate)
          (λ body.
            exchange http
              (record {
                url =
                    request_url api
                      (device_path api (codes "/protocols/astarte_mqtt_v1/credentials/verify"));
                bearer = credential_secret;
                body = some body;
                timeout_ms = timeout_ms;
              })
              (λ text.
                as_pairing_error
                  (parse_json lib pairing_json Kind.boolean get_bool text (codes "/data/valid"))))
          requests

-- The bytes of a UUID are its text's, and the generators (boost) are parameters: of a random one, and
-- of one from a namespace, if that is a UUID, and the data.
abbrev pub uuid_to_str : List ℕ → Text
uuid_to_str uuid = format_base64_url_safe uuid

abbrev pub create_random_device_id : List ℕ → Text
create_random_device_id uuid = uuid_to_str uuid

unfoldable pub create_deterministic_device_id :
    (Text → Option (List ℕ)) → (List ℕ → Text → List ℕ) → Text → Text → Result Text
create_deterministic_device_id string_gen v5_generator namespc unique_data =
    elim (string_gen namespc) [
      | none ↦ err Error.uuid_error
      | some ns_uuid ↦ ok (uuid_to_str (v5_generator ns_uuid unique_data))
    ]
