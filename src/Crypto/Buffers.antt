-- ===== src/Crypto/Buffers.antt =====
-- What the texts of a key and of a signing request hold.
use astarte_device_sdk_cpp.Base.{
  ℕ, ◌≡◌, sym, ap, ◌∙◌, Bool, true, false, not, ◌==◌, Text, length, if◌then◌else◌, Result, ok,
  >>=-eq-ok, ok-injective,
}
use astarte_device_sdk_cpp.Persistence.{zeros}
use astarte_device_sdk_cpp.Persistence.Shredding.{length-zeros}
use astarte_device_sdk_cpp.Crypto.{
  Mbedtls, psa_key_len, psa_csr_len, mbedtls_ret_to_astarte_errors, string_of, returned, thrown,
  to_pem, generate_csr, create_csr,
}

-- The calls that write into a buffer keep its length.
pub record KeepsBuffers (mbedtls : Mbedtls) : Type 0 where
  pub key_pem :
      (key : mbedtls.Key) (buf : Text) → length (mbedtls.pk_write_key_pem key buf).1 ≡ length buf
  pub request_pem :
      (key : mbedtls.Key) (buf : Text) → length (mbedtls.csr_pem key buf).1 ≡ length buf

string_of_inv : (written : ℕ × Text) (text : Text) → string_of written ≡ ok text → text ≡ written.1
string_of_inv (ret, buf) text h =
    let (_, _, e) = >>=-eq-ok (mbedtls_ret_to_astarte_errors ret) (λ done. ok buf) h in
    sym (ok-injective e)

generate_csr_inv :
    (mbedtls : Mbedtls) (key : mbedtls.Key) (csr : Text)
    → create_csr mbedtls key ≡ ok csr
    → csr ≡ (mbedtls.csr_pem key (zeros psa_csr_len)).1
unfolding create_csr generate_csr
generate_csr_inv mbedtls key csr h =
    let (_, _, a) = >>=-eq-ok (mbedtls_ret_to_astarte_errors (mbedtls.pk_copy_from_psa key)) _ h in
    let (_, _, b) = >>=-eq-ok (mbedtls_ret_to_astarte_errors mbedtls.set_subject_name) _ a in
    let (_, _, c) = >>=-eq-ok (mbedtls_ret_to_astarte_errors mbedtls.ctr_drbg_seed) _ b in
    string_of_inv (mbedtls.csr_pem key (zeros psa_csr_len)) csr c

returned-injective : (a b : Result Text) → returned a ≡ returned b → a ≡ b
returned-injective a b e = cc

to_pem_inv :
    (mbedtls : Mbedtls) (key : mbedtls.Key) (pem : Text)
    → to_pem mbedtls key ≡ returned (ok pem)
    → pem ≡ (mbedtls.pk_write_key_pem key (zeros psa_key_len)).1
unfolding to_pem
to_pem_inv mbedtls key pem h = at_copy (mbedtls.pk_copy_from_psa key == 0) h
  where
    at_copy :
        (b : Bool)
        → (if not b
            then thrown
            else returned (string_of (mbedtls.pk_write_key_pem key (zeros psa_key_len))))
          ≡ returned (ok pem)
        → pem ≡ (mbedtls.pk_write_key_pem key (zeros psa_key_len)).1
    at_copy false h = absurd cc
    at_copy true h = string_of_inv _ pem (returned-injective _ _ h)

-- A key in PEM and a signing request, when they are made, are always as long as their buffers, 1024
-- and 2048 bytes, however short the text is that the library has written: they hold the buffer with
-- all that stands after the text. The calls that write into a buffer keep its length.
pub pem-lengths :
    (mbedtls : Mbedtls) (key : mbedtls.Key) (pem csr : Text)
    → KeepsBuffers mbedtls
    → to_pem mbedtls key ≡ returned (ok pem)
    → create_csr mbedtls key ≡ ok csr
    → (length pem ≡ 1024) × (length csr ≡ 2048)
pem-lengths mbedtls key pem csr keeps h k = (
  ap length (to_pem_inv mbedtls key pem h)
      ∙ keeps.key_pem key (zeros psa_key_len)
      ∙ length-zeros psa_key_len,
  ap length (generate_csr_inv mbedtls key csr k)
      ∙ keeps.request_pem key (zeros psa_csr_len)
      ∙ length-zeros psa_csr_len,
)
