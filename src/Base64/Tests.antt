-- ===== src/Base64/Tests.antt =====
-- Sixteen bytes, as a device's identifier has, and two.
use astarte_device_sdk_cpp.Base.{ℕ, ◌≡◌, refl, some, List, [], ◌∷◌, codes, arith}
use astarte_device_sdk_cpp.Base64.{
  char_at, six_bits, chunk_of, url_safe_chars, format_base64_url_safe, format_chunks,
}
use astarte_device_sdk_cpp.Base64.Decoding.{decode, decode-format_base64_url_safe}

abbrev uuid : List ℕ
uuid = 251 ∷ 255 ∷ 191 ∷ 4 ∷ 5 ∷ 6 ∷ 7 ∷ 8 ∷ 9 ∷ 10 ∷ 11 ∷ 12 ∷ 13 ∷ 14 ∷ 15 ∷ 16 ∷ []

uuid_text : format_base64_url_safe uuid ≡ codes "-_-_BAUGBwgJCgsMDQ4PEA"
unfolding format_base64_url_safe char_at six_bits chunk_of
uuid_text = refl

padded_text : format_chunks (251 ∷ 255 ∷ []) ≡ codes "+/8="
unfolding format_chunks char_at six_bits
padded_text = refl

decode-format_base64_url_safe_example :
    decode url_safe_chars (format_base64_url_safe (251 ∷ 255 ∷ [])) ≡ some (251 ∷ 255 ∷ [])
decode-format_base64_url_safe_example =
    decode-format_base64_url_safe (251 ∷ 255 ∷ []) (omega arith, (omega arith, tt))
