-- ===== src/Credentials/Storing.antt =====
-- What is read back after the credentials were stored.
use astarte_device_sdk_cpp.Base.{
  ℕ, ◌≡◌, ◌≤◌, refl, sym, ap, subst, ◌∙◌, true, false, some, [], ◌∷◌, ◌++◌, Text, text_eq, length,
  take, codes, zero, suc, ok, arith,
}
use astarte_device_sdk_cpp.Persistence.{FileSystem, Files, put, write_to_file}
use astarte_device_sdk_cpp.Persistence.Removal.{put-here, put-elsewhere}
use astarte_device_sdk_cpp.Credentials.{
  get_device_certificate_path, get_device_key_path, then_files, write_all,
  store_device_key_and_certificate,
}

take_all : (n : ℕ) (s : Text) → length s ≤ n → take n s ≡ s
take_all zero [] h = refl
take_all (suc n) [] h = refl
take_all zero (x ∷ s) h = absurd (omega arith)
take_all (suc n) (x ∷ s) h = ap (λ t. x ∷ t) (take_all n s (omega arith))

text_eq-append : (d s t : Text) → text_eq (d ++ s) (d ++ t) ≡ text_eq s t
unfolding text_eq
text_eq-append [] s t = refl
text_eq-append (x ∷ d) s t = ground (arith, text_eq-append d s t)

-- The two files are not the same.
pub key_path-elsewhere :
    (store_dir : Text)
    → text_eq (get_device_certificate_path store_dir) (get_device_key_path store_dir) ≡ false
key_path-elsewhere store_dir =
    text_eq-append store_dir (codes "/client-certificate.pem") (codes "/client-priv-key.pem")
    ∙ unfold text_eq in refl

-- A file to which a text is written as a whole.
pub record Takes (fs : FileSystem) (path content : Text) : Type 0 where
  pub opens : fs.opens_to_write path ≡ true
  pub whole : length content ≤ fs.stream_out path content

write_to_file-Takes :
    (fs : FileSystem) (path content : Text) (files : Files)
    → Takes fs path content
    → write_to_file fs path content files ≡ (put path (some content) files, ok tt)
unfolding write_to_file
write_to_file-Takes fs path content files takes =
    rw takes.opens (rw (take_all (fs.stream_out path content) content takes.whole) refl)

store_equation :
    (fs : FileSystem) (key cert store_dir : Text) (files : Files)
    → Takes fs (get_device_certificate_path store_dir) cert
    → Takes fs (get_device_key_path store_dir) key
    → store_device_key_and_certificate fs key cert store_dir files ≡ (
      put
          (get_device_key_path store_dir)
          (some key)
          (put (get_device_certificate_path store_dir) (some cert) files),
      ok tt,
    )
unfolding write_all
store_equation fs key cert store_dir files hc hk =
    let cert_path = get_device_certificate_path store_dir in
    let key_path = get_device_key_path store_dir in
    ap (λ r. then_files r (write_all fs ((key_path, key) ∷ [])))
      (write_to_file-Takes fs cert_path cert files hc)
    ∙ ap (λ r. then_files r (write_all fs []))
        (write_to_file-Takes fs key_path key (put cert_path (some cert) files) hk)

-- The two files hold the certificate and the key.
abbrev pub Holds : Text → Text → Text → Files → Type 0
Holds store_dir cert key files =
    (files (get_device_certificate_path store_dir) ≡ some cert)
    × (files (get_device_key_path store_dir) ≡ some key)

-- Storing a key and a certificate in files that take them as a whole succeeds, and the certificate
-- and the key stand in their own files afterwards.
pub store-Holds :
    (fs : FileSystem) (key cert store_dir : Text) (files : Files)
    → Takes fs (get_device_certificate_path store_dir) cert
    → Takes fs (get_device_key_path store_dir) key
    → (let result = store_device_key_and_certificate fs key cert store_dir files in
        (result.1 ≡ ok tt) × Holds store_dir cert key result.0)
store-Holds fs key cert store_dir files hc hk =
    let cert_path = get_device_certificate_path store_dir in
    let key_path = get_device_key_path store_dir in
    subst (λ r. (r.1 ≡ ok tt) × Holds store_dir cert key r.0)
      (sym (store_equation fs key cert store_dir files hc hk))
      (
        refl,
        (
          put-elsewhere key_path cert_path (some key) (put cert_path (some cert) files)
                (key_path-elsewhere store_dir)
              ∙ put-here cert_path (some cert) files,
          put-here key_path (some key) (put cert_path (some cert) files),
        ),
      )
