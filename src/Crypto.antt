-- ===== src/Crypto.antt =====
-- src/mqtt/crypto.cpp: the key of a device and its signing request. The calls of the cryptographic
-- library are parameters: a code that is 0 for success, and the text that is written into a buffer.
-- The variant for Mbed TLS before version 4 is modelled, which seeds a generator for the request.
pub mod Buffers
pub mod Tests
use astarte_device_sdk_cpp.Base.{
  ℕ, ◌+◌, Bool, true, false, not, ◌==◌, List, [], ◌∷◌, ◌++◌, Text, take, if◌then◌else◌, Result, ok,
  err, ◌>>=◌, ◌>>◌, Error,
}
use astarte_device_sdk_cpp.Persistence.{zeros}

pub record Mbedtls : Type 1 where
  pub Key : Type 0
  pub psa_crypto_init : ℕ
  pub psa_generate_key : ℕ × Key
  pub pk_copy_from_psa : Key → ℕ
  -- A code, and the buffer after the call, from the buffer before it.
  pub pk_write_key_pem : Key → Text → ℕ × Text
  pub set_subject_name : ℕ
  pub ctr_drbg_seed : ℕ
  pub csr_pem : Key → Text → ℕ × Text

abbrev pub psa_key_len : ℕ
psa_key_len = 1024

abbrev pub psa_csr_len : ℕ
psa_csr_len = 2048

abbrev pub mbedtls_ret_to_astarte_errors : ℕ → Result (Unit {0})
mbedtls_ret_to_astarte_errors ret = if ret == 0 then ok tt else err Error.crypto_error

-- The whole buffer becomes the string, whatever stands after the zero byte that ends the text.
abbrev pub string_of : ℕ × Text → Result Text
string_of (ret, buf) = mbedtls_ret_to_astarte_errors ret >>= λ done. ok buf

-- A call returns or throws.
pub data Called {ℓ} (T : Type ℓ) : Type ℓ where
  returned : Result T → Called T
  thrown : Called T

module _ (mbedtls : Mbedtls) where
  open mbedtls use {
    Key, pk_copy_from_psa, pk_write_key_pem, set_subject_name, ctr_drbg_seed, csr_pem,
  }

  -- `PsaKey::create` and `PsaKey::generate`.
  unfoldable pub generate_key : Result Key
  generate_key = do
    mbedtls_ret_to_astarte_errors mbedtls.psa_crypto_init
    mbedtls_ret_to_astarte_errors mbedtls.psa_generate_key.0
    ok mbedtls.psa_generate_key.1

  -- A copy that fails is only logged, and then `value()` of the copy throws.
  unfoldable pub to_pem : Key → Called Text
  to_pem key =
      if not (pk_copy_from_psa key == 0)
      then thrown
      else returned (string_of (pk_write_key_pem key (zeros psa_key_len)))

  -- `MbedX509WriteCsr::generate`.
  unfoldable pub generate_csr : Key → Result Text
  generate_csr key = do
    mbedtls_ret_to_astarte_errors set_subject_name
    mbedtls_ret_to_astarte_errors ctr_drbg_seed
    string_of (csr_pem key (zeros psa_csr_len))

  unfoldable pub create_csr : Key → Result Text
  create_csr key = do mbedtls_ret_to_astarte_errors (pk_copy_from_psa key); generate_csr key
