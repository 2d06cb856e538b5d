-- ===== src/Credentials/Deleting.antt =====
-- The deletion of the certificate and the key.
use astarte_device_sdk_cpp.Base.{
  ◌≡◌, refl, sym, ap, subst, ◌∙◌, inl, inr, Bool-cases, none, some, take, [], ◌∷◌, Text, Result, ok,
  err, Error,
}
use astarte_device_sdk_cpp.Persistence.{FileSystem, Files, put, write_to_file, secure_shred_file}
use astarte_device_sdk_cpp.Persistence.Removal.{put-here, put-elsewhere}
use astarte_device_sdk_cpp.Persistence.Deletion.{
  Obeys, secure_shred_file-eq-ok, secure_shred_file-gone, secure_shred_file-elsewhere,
}
use astarte_device_sdk_cpp.Credentials.{
  get_device_certificate_path, get_device_key_path, then_files, write_all,
  store_device_key_and_certificate, delete_client_certificate_and_key,
}
use astarte_device_sdk_cpp.Credentials.Storing.{key_path-elsewhere}

-- Neither file is there.
abbrev pub HasNoCredentials : Text → Files → Type 0
HasNoCredentials store_dir files =
    (files (get_device_certificate_path store_dir) ≡ none)
    × (files (get_device_key_path store_dir) ≡ none)

abbrev pub HasCertificate : Text → Files → Type 0
HasCertificate store_dir files =
    (content : Text) × (files (get_device_certificate_path store_dir) ≡ some content)

module _ (fs : FileSystem) (store_dir : Text) where
  then-HasNoCredentials :
      (first : Files × Result (Unit {0}))
      → Obeys fs (get_device_key_path store_dir)
      → first.1 ≡ ok tt
      → first.0 (get_device_certificate_path store_dir) ≡ none
      → HasNoCredentials store_dir
          (then_files first
            (λ files'. secure_shred_file fs (get_device_key_path store_dir) files')).0
  then-HasNoCredentials (files, err e) o h gone = absurd cc
  then-HasNoCredentials (files, ok _) o h gone = (
    secure_shred_file-elsewhere fs (get_device_key_path store_dir)
          (get_device_certificate_path store_dir) (key_path-elsewhere store_dir) files
        ∙ gone,
    secure_shred_file-gone fs (get_device_key_path store_dir) files o,
  )

  -- Where there is a certificate, and no call on the two files fails, neither is left.
  pub delete-HasNoCredentials :
      (files : Files)
      → Obeys fs (get_device_certificate_path store_dir)
      → Obeys fs (get_device_key_path store_dir)
      → HasCertificate store_dir files
      → HasNoCredentials store_dir (delete_client_certificate_and_key fs store_dir files).0
  unfolding delete_client_certificate_and_key
  delete-HasNoCredentials files oc ok' (content, e) =
      let path = get_device_certificate_path store_dir in
      then-HasNoCredentials (secure_shred_file fs path files) ok'
        (secure_shred_file-eq-ok fs path files content oc e)
        (secure_shred_file-gone fs path files oc)

  -- What a writing leaves: the file system as it was, or a file at the path.
  write-Leaves :
      (path content : Text) (files : Files) (outcome : Files × Result (Unit {0}))
      → write_to_file fs path content files ≡ outcome
      → outcome.1 ≡ ok tt
      → outcome.0 ≡ put path (some (take (fs.stream_out path content) content)) files
  unfolding write_to_file
  write-Leaves path content files outcome e h = elim (Bool-cases (fs.opens_to_write path)) [
    | inl opens ↦ ap (λ r. r.0) (sym e) ∙ rw opens refl
    | inr opens ↦
        let refused : outcome ≡ (files, err Error.write_credential_error) = sym e ∙ rw opens refl in
        let x : outcome.1 ≡ err Error.write_credential_error = ap (λ r. r.1) refused in absurd cc
  ]

  after_key :
      (key cert : Text) (first second : Files × Result (Unit {0}))
      → (files : Files)
      → write_to_file fs (get_device_certificate_path store_dir) cert files ≡ first
      → write_to_file fs (get_device_key_path store_dir) key first.0 ≡ second
      → first.1 ≡ ok tt
      → second.1 ≡ ok tt
      → HasCertificate store_dir second.0
  after_key key cert first second files e e' h h' =
      let cert_path = get_device_certificate_path store_dir in
      let key_path = get_device_key_path store_dir in
      let stored = take (fs.stream_out cert_path cert) cert in
      (
        stored,
        ap (λ f. f cert_path) (write-Leaves key_path key first.0 second e' h')
            ∙ put-elsewhere key_path cert_path _ first.0 (key_path-elsewhere store_dir)
            ∙ ap (λ f. f cert_path) (write-Leaves cert_path cert files first e h)
            ∙ put-here cert_path (some stored) files,
      )

  -- A storing that succeeds has made the file of the certificate.
  pub store-HasCertificate :
      (key cert : Text) (files : Files) (stored : Files × Result (Unit {0}))
      → store_device_key_and_certificate fs key cert store_dir files ≡ stored
      → stored.1 ≡ ok tt
      → HasCertificate store_dir stored.0
  unfolding write_all
  store-HasCertificate key cert files stored e h =
      at_first (write_to_file fs (get_device_certificate_path store_dir) cert files) refl e
    where
      at_second :
          (first second : Files × Result (Unit {0}))
          → write_to_file fs (get_device_certificate_path store_dir) cert files ≡ first
          → first.1 ≡ ok tt
          → write_to_file fs (get_device_key_path store_dir) key first.0 ≡ second
          → then_files second (λ files'. (files', ok tt)) ≡ stored
          → HasCertificate store_dir stored.0
      at_second first (files2, err wrong) p q p' r =
          let x : err wrong ≡ ok tt = ap (λ s. s.1) r ∙ h in absurd cc
      at_second first (files2, ok _) p q p' r =
          subst (λ s. HasCertificate store_dir s.0) r
            (after_key key cert first (files2, ok tt) files p p' q refl)

      at_first :
          (first : Files × Result (Unit {0}))
          → write_to_file fs (get_device_certificate_path store_dir) cert files ≡ first
          → then_files first
              (λ files'. write_all fs ((get_device_key_path store_dir, key) ∷ []) files')
            ≡ stored
          → HasCertificate store_dir stored.0
      at_first (files1, err wrong) p r =
          let x : err wrong ≡ ok tt = ap (λ s. s.1) r ∙ h in absurd cc
      at_first (files1, ok _) p r =
          at_second (files1, ok tt) (write_to_file fs (get_device_key_path store_dir) key files1) p
            refl refl r
