-- ===== src/Pairing/Tests.antt =====
-- A service that reports every certificate as valid.
use astarte_device_sdk_cpp.Base.{
  ◌≡◌, ◌↔◌, Bool, true, false, none, some, [], Text, codes, ok, returns,
}
use astarte_device_sdk_cpp.Base.Int.{pos}
use astarte_device_sdk_cpp.Json.{Kind, JsonLibrary}
use astarte_device_sdk_cpp.Pairing.{
  HttpClient, UrlLibrary, PairingJson, PairingApi, device_cert_valid,
}
use astarte_device_sdk_cpp.Pairing.Answers.{Answers, verify_request, device_cert_valid_iff}

-- JSON that is one Boolean.
abbrev booleans : JsonLibrary
booleans = record {
  Json = Bool;
  kind = λ j. Kind.boolean;
  find = λ j key. none;
  get_text = λ j. [];
  get_int64 = λ j. pos 0;
  get_bool = λ j. j;
  elements = λ j. [];
}

abbrev always_true : PairingJson booleans
always_true = record {
  parse = λ text. true;
  at_pointer = λ j path. some j;
  dump_data = λ key value. some value;
}

abbrev texts_as_urls : UrlLibrary
texts_as_urls = record {
  Url = Text;
  parse = λ text. some text;
  set_pathname = λ path url. path;
  get_pathname = λ url. url;
  get_href = λ url. url;
}

abbrev accepting : HttpClient
accepting before r = record { error = false; status_code = 200; text = [] }

abbrev api : PairingApi texts_as_urls
api = record { realm = codes "test"; device_id = codes "id"; pairing_url = codes "pairing" }

device_cert_valid_iff_example :
    ((device_cert_valid booleans always_true accepting api (codes "crt") (codes "s") (pos 0) []).1
      ≡ returns (ok true))
    ↔ ((body : Text) × (some (codes "crt") ≡ some body)
        × Answers booleans always_true
            (accepting []
              (verify_request booleans always_true accepting api body (codes "s") (pos 0)))
            Kind.boolean
            (λ j. j)
            (codes "/data/valid")
            true)
device_cert_valid_iff_example =
    device_cert_valid_iff booleans always_true accepting api (codes "crt") (codes "s") (pos 0) []
      true
