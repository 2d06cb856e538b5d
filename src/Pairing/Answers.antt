-- ===== src/Pairing/Answers.antt =====
-- When the requests to the pairing service succeed.
use astarte_device_sdk_cpp.Base.{
  ℕ, ◌≡◌, refl, ap, subst, ◌≤◌, ◌<◌, ◌↔◌, Bool, true, false, not, Option, none, some, List, Text,
  codes, if◌then◌else◌, Result, ok, err, returns, returns-injective, sym, ◌>>=◌, Error,
  ok-injective, >>=-eq-ok, ◌∙◌, arith,
}
use astarte_device_sdk_cpp.Base.Int.{ℤ}
use astarte_device_sdk_cpp.Json.{Kind, same_kind, JsonLibrary}
use astarte_device_sdk_cpp.Pairing.{
  HttpRequest, HttpResponse, HttpClient, UrlLibrary, PairingJson, is_successful, parse_json,
  text_of, as_pairing_error, with_body, PairingApi, request_url, device_path, device_cert_valid,
}

-- The codes that count as a success, of those that the cast to 8 bits keeps apart, are those from
-- 200 to 299.
pub is_successful_iff :
    (status_code : ℕ)
    → status_code < 25600
    → (is_successful status_code ≡ true) ↔ ((200 ≤ status_code) × (status_code < 300))
unfolding is_successful
is_successful_iff status_code h = ground arith

module _ (lib : JsonLibrary) (pairing_json : PairingJson lib) where
  open lib use {Json, kind}
  open pairing_json use {parse, at_pointer}

  -- The text is JSON, and a value of the kind stands at the pointer.
  abbrev pub Holds {ℓ} : {T : Type ℓ} → Kind → (Json → T) → Text → Text → T → Type ℓ
  Holds expected get text path value =
      (same_kind (kind (parse text)) Kind.discarded ≡ false)
      × (found : Json) × (at_pointer (parse text) path ≡ some found)
      × (same_kind (kind found) expected ≡ true)
      × (get found ≡ value)

  abbrev read_kind {ℓ} : {T : Type ℓ} → Kind → (Json → T) → Json → Result T
  read_kind expected get value =
      if same_kind (kind value) expected then ok (get value) else err Error.json_parsing_error

  read_kind_iff {ℓ} :
      {T : Type ℓ} (expected : Kind) (get : Json → T) (found : Json) (value : T)
      → (read_kind expected get found ≡ ok value)
        ↔ ((same_kind (kind found) expected ≡ true) × (get found ≡ value))
  read_kind_iff expected get found value = at_kind (same_kind (kind found) expected)
    where
      at_kind :
          (b : Bool)
          → ((if b then ok (get found) else err Error.json_parsing_error) ≡ ok value)
            ↔ ((b ≡ true) × (get found ≡ value))
      at_kind true = (λ h. (refl, ok-injective h), λ (_, e). ap ok e)
      at_kind false = (λ h. absurd cc, λ (e, _). absurd cc)

  same : (found other : Json) → some found ≡ some other → other ≡ found
  same found other e = cc

  abbrev read_found {ℓ} : {T : Type ℓ} → Kind → (Json → T) → Option Json → Result T
  read_found expected get none = err Error.json_parsing_error
  read_found expected get (some value) = read_kind expected get value

  read_found_iff {ℓ} :
      {T : Type ℓ} (expected : Kind) (get : Json → T) (at : Option Json) (value : T)
      → (read_found expected get at ≡ ok value) ↔ (
          (found : Json) × (at ≡ some found)
          × (same_kind (kind found) expected ≡ true)
          × (get found ≡ value))
  read_found_iff expected get none value = (λ h. absurd cc, λ (found, e, _, _). absurd cc)
  read_found_iff expected get (some found) value = (
    λ h. let (k, g) = (read_kind_iff expected get found value).0 h in (found, refl, k, g),
    λ (other, e, k, g). (read_kind_iff expected get found value).1 (
        subst (λ j. (same_kind (kind j) expected ≡ true) × (get j ≡ value)) (same found other e)
          (k, g)),
  )

  parse_json_iff {ℓ} :
      {T : Type ℓ} (expected : Kind) (get : Json → T) (text path : Text) (value : T)
      → (parse_json lib pairing_json expected get text path ≡ ok value)
        ↔ Holds expected get text path value
  unfolding parse_json
  parse_json_iff expected get text path value =
      at_kind (same_kind (kind (parse text)) Kind.discarded)
    where
      at_kind :
          (discarded : Bool)
          → ((if discarded
                then err Error.json_parsing_error
                else read_found expected get (at_pointer (parse text) path))
              ≡ ok value)
            ↔ ((discarded ≡ false)
                × (found : Json) × (at_pointer (parse text) path ≡ some found)
                × (same_kind (kind found) expected ≡ true)
                × (get found ≡ value))
      at_kind true = (λ h. absurd cc, λ (e, _, _, _, _). absurd cc)
      at_kind false =
          let (to, from) = read_found_iff expected get (at_pointer (parse text) path) value in
          (λ h. let (f, a, k, g) = to h in (refl, f, a, k, g), λ (_, f, a, k, g). from (f, a, k, g))

text_of_iff :
    (res : HttpResponse) (text : Text)
    → (text_of res ≡ ok text)
      ↔ ((res.error ≡ false) × (is_successful res.status_code ≡ true) × (res.text ≡ text))
unfolding text_of
text_of_iff res text = at_tests res.error (is_successful res.status_code)
  where
    at_tests :
        (error successful : Bool)
        → ((if error
              then err Error.mqtt_error
              else if not successful
              then err Error.mqtt_error
              else ok res.text)
            ≡ ok text)
          ↔ ((error ≡ false) × (successful ≡ true) × (res.text ≡ text))
    at_tests true successful = (λ h. absurd cc, λ (e, _, _). absurd cc)
    at_tests false true = (λ h. (refl, refl, ok-injective h), λ (_, _, e). ap ok e)
    at_tests false false = (λ h. absurd cc, λ (_, e, _). absurd cc)

-- What a chain that starts with the text of a response says of it.
text_of-chain {ℓ} :
    {T : Type ℓ} (res : HttpResponse) (read : Text → Result T) (value : T)
    → ((text_of res >>= read) ≡ ok value)
      ↔ ((res.error ≡ false) × (is_successful res.status_code ≡ true) × (read res.text ≡ ok value))
text_of-chain res read value = (to, from)
  where
    to :
        (text_of res >>= read) ≡ ok value
        → (res.error ≡ false) × (is_successful res.status_code ≡ true) × (read res.text ≡ ok value)
    to h =
        let (text, e, k) = >>=-eq-ok (text_of res) read h in
        let (a, b, c) = (text_of_iff res text).0 e in (a, b, ap read c ∙ k)

    from :
        (res.error ≡ false) × (is_successful res.status_code ≡ true) × (read res.text ≡ ok value)
        → (text_of res >>= read) ≡ ok value
    from (a, b, c) = ap (λ r. r >>= read) ((text_of_iff res res.text).1 (a, b, refl)) ∙ c

as_pairing_error_iff {ℓ} :
    {T : Type ℓ} (r : Result T) (value : T) → (as_pairing_error r ≡ ok value) ↔ (r ≡ ok value)
as_pairing_error_iff (ok v) value = (λ h. h, λ h. h)
as_pairing_error_iff (err e) value = (λ h. absurd cc, λ h. absurd cc)

module _ (lib : JsonLibrary) (pairing_json : PairingJson lib) where
  open lib use {Json}

  -- A response without an error of the client, with a code of success, whose text holds the value.
  abbrev pub Answers {ℓ} : {T : Type ℓ} → HttpResponse → Kind → (Json → T) → Text → T → Type ℓ
  Answers res expected get path value =
      (res.error ≡ false)
      × (is_successful res.status_code ≡ true)
      × Holds lib pairing_json expected get res.text path value

  Answers-iff {ℓ} :
      {T : Type ℓ} (res : HttpResponse) (expected : Kind) (get : Json → T) (path : Text) (value : T)
      → ((text_of res >>= λ text.
            as_pairing_error (parse_json lib pairing_json expected get text path))
          ≡ ok value)
        ↔ Answers res expected get path value
  Answers-iff res expected get path value =
      let read =
        λ (text : Text). as_pairing_error (parse_json lib pairing_json expected get text path) in
      let (to, from) = text_of-chain res read value in
      let (to', from') =
        as_pairing_error_iff (parse_json lib pairing_json expected get res.text path) value in
      let (to'', from'') = parse_json_iff lib pairing_json expected get res.text path value in
      (
        λ h. let (a, b, c) = to h in (a, b, to'' (to' c)),
        λ (a, b, c). from (a, b, from' (from'' c)),
      )

-- What an exchange with a body says of it.
with_body_iff :
    (certificate : Option Text) (read : Text → List HttpRequest → List HttpRequest × Result Bool)
    (requests : List HttpRequest) (valid : Bool)
    → ((with_body certificate read requests).1 ≡ returns (ok valid))
      ↔ ((body : Text) × (certificate ≡ some body) × ((read body requests).1 ≡ ok valid))
with_body_iff none read requests valid = (λ h. absurd cc, λ (body, e, _). absurd cc)
with_body_iff (some body) read requests valid = (
  λ h. (body, refl, returns-injective h),
  λ (other, e, h).
      ap returns (subst (λ b. (read b requests).1 ≡ ok valid) (sym (some_back body other e)) h),
)
  where
    some_back : (a b : Text) → some a ≡ some b → a ≡ b
    some_back a b e = cc

module _ {urls : UrlLibrary} (lib : JsonLibrary) (pairing_json : PairingJson lib)
    (http : HttpClient) where
  open lib use {Json, get_text, get_bool}

  abbrev pub verify_request : PairingApi urls → Text → Text → ℤ → HttpRequest
  verify_request api body secret timeout_ms = record {
    url = request_url api (device_path api (codes "/protocols/astarte_mqtt_v1/credentials/verify"));
    bearer = secret;
    body = some body;
    timeout_ms = timeout_ms;
  }

  -- A certificate is reported as valid, or as not, exactly if it can be put into a JSON text and the one
  -- request that carries this text is answered without an error, with a code of success, and with JSON
  -- that has this Boolean at "/data/valid".
  pub device_cert_valid_iff :
      (api : PairingApi urls) (certificate secret : Text) (timeout_ms : ℤ)
      (requests : List HttpRequest) (valid : Bool)
      → ((device_cert_valid lib pairing_json http api certificate secret timeout_ms requests).1
          ≡ returns (ok valid))
        ↔ ((body : Text) × (pairing_json.dump_data (codes "client_crt") certificate ≡ some body)
            × Answers lib pairing_json
                (http requests (verify_request api body secret timeout_ms))
                Kind.boolean
                get_bool
                (codes "/data/valid")
                valid)
  unfolding device_cert_valid
  device_cert_valid_iff api certificate secret timeout_ms requests valid =
      let (to, from) =
        with_body_iff (pairing_json.dump_data (codes "client_crt") certificate) _ requests valid in
      let answers = λ (body : Text).
        Answers-iff lib pairing_json (http requests (verify_request api body secret timeout_ms))
          Kind.boolean get_bool (codes "/data/valid") valid in
      (
        λ h. let (body, e, k) = to h in (body, e, (answers body).0 k),
        λ (body, e, k). from (body, e, (answers body).1 k),
      )
