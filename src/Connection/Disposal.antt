-- ===== src/Connection/Disposal.antt =====
-- What a connection leaves of the credentials.
use astarte_device_sdk_cpp.Base.{
  ◌≡◌, refl, sym, ap, subst, ◌∙◌, inl, inr, Bool, true, false, Option, Option-cases, Bool-cases,
  none, some, List, Text, ok, err, Error, Attempt, exception, returns, returns-injective,
}
use astarte_device_sdk_cpp.Json.{JsonLibrary}
use astarte_device_sdk_cpp.Pairing.{HttpRequest, HttpClient, UrlLibrary, PairingJson, PairingApi}
use astarte_device_sdk_cpp.Persistence.{FileSystem, Files, exists}
use astarte_device_sdk_cpp.Persistence.Deletion.{Obeys}
use astarte_device_sdk_cpp.Credentials.{
  get_device_certificate_path, get_device_key_path, store_device_key_and_certificate,
  validate_client_certificate,
}
use astarte_device_sdk_cpp.Credentials.Deleting.{
  HasNoCredentials, HasCertificate, delete-HasNoCredentials, store-HasCertificate,
}
use astarte_device_sdk_cpp.Config.{credential_secret_of}
use astarte_device_sdk_cpp.Connection.Setup.{
  Created, World, KeyMaker, store_pair, connect_client, renew_credentials, renew_if_invalid,
  connect,
}

-- No call on the two files of the credentials fails.
abbrev pub ObeysIn : FileSystem → Text → Type 0
ObeysIn fs store_dir =
    Obeys fs (get_device_certificate_path store_dir) × Obeys fs (get_device_key_path store_dir)

module _ (fs : FileSystem) (store_dir : Text) where
  connect_client-HasNoCredentials :
      (connects : Bool) (prepared : World × Attempt (Unit {0}))
      → ObeysIn fs store_dir
      → (prepared.1 ≡ returns (ok tt) → HasCertificate store_dir prepared.0.files)
      → (connect_client fs connects store_dir prepared).1 ≡ returns (ok tt)
      → HasNoCredentials store_dir (connect_client fs connects store_dir prepared).0.files
  connect_client-HasNoCredentials connects (world, exception) o has h = absurd cc
  connect_client-HasNoCredentials connects (world, returns (err e)) o has h = absurd cc
  connect_client-HasNoCredentials false (world, returns (ok _)) o has h = absurd cc
  connect_client-HasNoCredentials true (world, returns (ok _)) (oc, ok') has h =
      delete-HasNoCredentials fs store_dir world.files oc ok' (has refl)

  store_pair-HasCertificate :
      (world : World) (pair : Attempt (Text × Text))
      → (store_pair fs store_dir world pair).1 ≡ returns (ok tt)
      → HasCertificate store_dir (store_pair fs store_dir world pair).0.files
  store_pair-HasCertificate world exception h = absurd cc
  store_pair-HasCertificate world (returns (err e)) h = absurd cc
  store_pair-HasCertificate world (returns (ok (key, cert))) h =
      store-HasCertificate fs store_dir key cert world.files
        (store_device_key_and_certificate fs key cert store_dir world.files) refl
        (returns-injective h)

found :
    (content : Option Text)
    → (elim content [ none ↦ false | some text ↦ true ]) ≡ true
    → (text : Text) × (content ≡ some text)
found none h = absurd cc
found (some text) h = (text, refl)

module _ {urls : UrlLibrary} (fs : FileSystem) (lib : JsonLibrary) (pairing_json : PairingJson lib)
    (http : HttpClient) where
  validated-HasCertificate :
      (api : PairingApi urls) (secret store_dir : Text) (files : Files)
      (requests : List HttpRequest)
      → (validate_client_certificate fs lib pairing_json http api secret store_dir files requests).1
        ≡ returns (ok true)
      → HasCertificate store_dir files
  unfolding validate_client_certificate
  validated-HasCertificate api secret store_dir files requests h =
      let path = get_device_certificate_path store_dir in
      elim (Bool-cases (exists fs path files)) [
        | inl e ↦ found (files path) e
        | inr e ↦
            let x : validate_client_certificate fs lib pairing_json http api secret store_dir files
                  requests
                ≡ (requests, returns (ok false)) =
              rw (e, validate_client_certificate) refl in
            let y : returns (ok false) ≡ returns (ok true) = ap (λ r. r.1) (sym x) ∙ h in absurd cc
      ]

  module _ (new_key : KeyMaker) where
    renewed-HasCertificate :
        (api : PairingApi urls) (secret store_dir : Text) (world : World)
        (validated : List HttpRequest × Attempt Bool)
        → (validated.1 ≡ returns (ok true) → HasCertificate store_dir world.files)
        → (renew_if_invalid fs lib pairing_json http new_key api secret store_dir world validated).1
          ≡ returns (ok tt)
        → HasCertificate store_dir
            (renew_if_invalid fs lib pairing_json http new_key api secret store_dir world
              validated).0.files
    unfolding renew_credentials
    renewed-HasCertificate api secret store_dir world (requests, exception) has h = absurd cc
    renewed-HasCertificate api secret store_dir world (requests, returns (err e)) has h = absurd cc
    renewed-HasCertificate api secret store_dir world (requests, returns (ok true)) has h = has refl
    renewed-HasCertificate api secret store_dir world (requests, returns (ok false)) has h =
        store_pair-HasCertificate fs store_dir _ _ h

    -- A connection that succeeds leaves no credentials behind: if no call on their two files fails, then
    -- neither the certificate nor the private key is in the store directory afterwards, whether they
    -- were still valid or had to be renewed.
    pub connect-HasNoCredentials :
        (connects : Bool) (connection : Created urls) (world : World)
        → ObeysIn fs connection.cfg.store_dir
        → (connect fs lib pairing_json http new_key connects connection world).1 ≡ returns (ok tt)
        → HasNoCredentials connection.cfg.store_dir
            (connect fs lib pairing_json http new_key connects connection world).0.files
    unfolding connect
    connect-HasNoCredentials connects connection world o h =
        elim (Option-cases (credential_secret_of connection.cfg)) [
          | inl e ↦
              let x : connect fs lib pairing_json http new_key connects connection world
                  ≡ (world, returns (err Error.mqtt_connection_error)) =
                rw (e, connect) refl in
              let y : returns (err Error.mqtt_connection_error) ≡ returns (ok (tt {0})) =
                ap (λ r. r.1) (sym x) ∙ h in
              absurd cc
          | inr (secret, e) ↦ with_secret secret e
        ]
      where
        store_dir : Text
        store_dir = connection.cfg.store_dir

        prepared : Text → World × Attempt (Unit {0})
        prepared secret =
            renew_if_invalid fs lib pairing_json http new_key connection.pairing_api secret
              store_dir world
              (validate_client_certificate fs lib pairing_json http connection.pairing_api secret
                store_dir world.files world.requests)

        with_secret :
            (secret : Text)
            → credential_secret_of connection.cfg ≡ some secret
            → HasNoCredentials store_dir
                (connect fs lib pairing_json http new_key connects connection world).0.files
        with_secret secret e =
            let same : connect fs lib pairing_json http new_key connects connection world
                ≡ connect_client fs connects store_dir (prepared secret) =
              rw (e, connect) refl in
            subst (λ r. HasNoCredentials store_dir r.0.files) (sym same)
              (connect_client-HasNoCredentials fs store_dir connects (prepared secret) o
                (renewed-HasCertificate connection.pairing_api secret store_dir world _ (
                  validated-HasCertificate connection.pairing_api secret store_dir world.files
                    world.requests))
                (ap (λ r. r.1) (sym same) ∙ h))
