-- ===== src/Crypto/Tests.antt =====
-- A library that writes nothing.
use astarte_device_sdk_cpp.Base.{ℕ, ◌≡◌, refl, length, ok}
use astarte_device_sdk_cpp.Persistence.{zeros}
use astarte_device_sdk_cpp.Crypto.{
  Mbedtls, psa_key_len, psa_csr_len, returned, to_pem, generate_csr, create_csr,
}
use astarte_device_sdk_cpp.Crypto.Buffers.{pem-lengths}

abbrev idle : Mbedtls
idle = record {
  Key = ℕ;
  psa_crypto_init = 0;
  psa_generate_key = (0, 7);
  pk_copy_from_psa = λ key. 0;
  pk_write_key_pem = λ key buf. (0, buf);
  set_subject_name = 0;
  ctr_drbg_seed = 0;
  csr_pem = λ key buf. (0, buf);
}

made_key : to_pem idle 7 ≡ returned (ok (zeros psa_key_len))
unfolding to_pem
made_key = refl

made_request : create_csr idle 7 ≡ ok (zeros psa_csr_len)
unfolding create_csr generate_csr
made_request = refl

pem-lengths_example : (length (zeros psa_key_len) ≡ 1024) × (length (zeros psa_csr_len) ≡ 2048)
pem-lengths_example =
    pem-lengths idle 7 (zeros psa_key_len) (zeros psa_csr_len)
      (record { key_pem = λ key buf. refl; request_pem = λ key buf. refl }) made_key made_request
