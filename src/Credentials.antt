-- ===== src/Credentials.antt =====
-- src/mqtt/credentials.cpp and private/mqtt/credentials.hpp: the device's certificate and key, on
-- files and at the pairing service.
pub mod Storing
pub mod Deleting
pub mod Tests
use astarte_device_sdk_cpp.Base.{
  ℕ, Bool, true, false, Option, none, some, List, [], ◌∷◌, ◌++◌, Text, codes, if◌then◌else◌, Result,
  ok, err, Error, Attempt, returns,
}
use astarte_device_sdk_cpp.Base.Int.{pos}
use astarte_device_sdk_cpp.Json.{JsonLibrary}
use astarte_device_sdk_cpp.Pairing.{
  HttpRequest, HttpClient, UrlLibrary, PairingJson, PairingApi, device_cert_valid,
}
use astarte_device_sdk_cpp.Persistence.{
  FileSystem, Files, exists, read_from_file, write_to_file, secure_shred_file,
}

pub data CredentialType : Type 0 where
  credential_secret pairing_token : CredentialType

pub record Credential : Type 0 where
  pub type : CredentialType
  pub credential : Text
  pub store_dir : Text

abbrev pub is_credential_secret : Credential → Bool
is_credential_secret c = elim c.type [ credential_secret ↦ true | pairing_token ↦ false ]

abbrev pub get_device_certificate_path : Text → Text
get_device_certificate_path store_dir = store_dir ++ codes "/client-certificate.pem"

abbrev pub get_device_key_path : Text → Text
get_device_key_path store_dir = store_dir ++ codes "/client-priv-key.pem"

-- The early return of the loop, and of the chain of deletions.
abbrev pub then_files :
    Files × Result (Unit {0}) → (Files → Files × Result (Unit {0})) → Files × Result (Unit {0})
then_files (files, err e) next = (files, err e)
then_files (files, ok _) next = next files

module _ (fs : FileSystem) where
  -- The loop over the files, which ends at the first failure.
  unfoldable pub write_all : List (Text × Text) → Files → Files × Result (Unit {0})
  write_all [] files = (files, ok tt)
  write_all ((path, content) ∷ rest) files =
      then_files (write_to_file fs path content files) (λ files'. write_all rest files')

  abbrev pub store_device_key_and_certificate :
      Text → Text → Text → Files → Files × Result (Unit {0})
  store_device_key_and_certificate client_priv_key client_cert store_dir files =
      write_all
        ((get_device_certificate_path store_dir, client_cert)
          ∷ (get_device_key_path store_dir, client_priv_key)
          ∷ [])
        files

  unfoldable pub delete_client_certificate_and_key : Text → Files → Files × Result (Unit {0})
  delete_client_certificate_and_key store_dir files =
      then_files (secure_shred_file fs (get_device_certificate_path store_dir) files)
        (λ files'. secure_shred_file fs (get_device_key_path store_dir) files')

-- The timeout of the request is the default.
module _ {urls : UrlLibrary} (fs : FileSystem) (lib : JsonLibrary) (pairing_json : PairingJson lib)
    (http : HttpClient) where
  -- The request for a certificate that was read.
  abbrev pub validate_read :
      PairingApi urls → Text → Result Text → List HttpRequest → List HttpRequest × Attempt Bool
  validate_read api secret (err e) requests = (requests, returns (err e))
  validate_read api secret (ok certificate) requests =
      device_cert_valid lib pairing_json http api certificate secret (pos 0) requests

  unfoldable pub validate_client_certificate :
      PairingApi urls → Text → Text → Files → List HttpRequest → List HttpRequest × Attempt Bool
  validate_client_certificate api secret store_dir files requests =
      let file_path = get_device_certificate_path store_dir in
      if exists fs file_path files
      then validate_read api secret (read_from_file fs file_path files) requests
      else (requests, returns (ok false))
