-- ===== src/Base64.antt =====
-- The two encoders in base 64: `format_base64_url_safe` of src/mqtt/pairing.cpp, for the identifiers
-- of devices, and `format_base64` of include/astarte_device_sdk/formatter.hpp, for the printing of
-- binary data. A byte is its number; the three bytes of a chunk take 24 of its 32 bits. A round of
-- the loop takes the next three bytes, and what is left over are one or two.
pub mod Places
pub mod Decoding
pub mod Tests
use Prim.Native.Nat.{bit_and, bit_or}
use astarte_device_sdk_cpp.Base.{ℕ, zero, suc, ◌*◌, ◌/◌, ◌^◌, List, [], ◌∷◌, ◌++◌, Text, codes}

abbrev pub base64_letters : Text
base64_letters = codes "ABCDEFGHIJKLMNOPQRSTUVWXYZabcdefghijklmnopqrstuvwxyz0123456789"

-- `kBase64Chars` of the pairing, and `base64_chars` of the formatter.
abbrev pub url_safe_chars : Text
url_safe_chars = base64_letters ++ codes "-_"

abbrev pub base64_chars : Text
base64_chars = base64_letters ++ codes "+/"

-- `chars[n]`; past the end, where the code does not read, the model has 0.
unfoldable pub char_at : Text → ℕ → ℕ
char_at [] n = 0
char_at (c ∷ chars) zero = c
char_at (c ∷ chars) (suc n) = char_at chars n

-- Three bytes as one number.
unfoldable pub chunk_of : ℕ → ℕ → ℕ → ℕ
chunk_of byte0 byte1 byte2 = bit_or (bit_or (byte0 * 2 ^ 16) (byte1 * 2 ^ 8)) byte2

-- `(chunk >> shift) & kSixBitMask`.
unfoldable pub six_bits : ℕ → ℕ → ℕ
six_bits chunk shift = bit_and (chunk / 2 ^ shift) 63

unfoldable pub format_base64_url_safe : List ℕ → Text
format_base64_url_safe [] = []
format_base64_url_safe (byte0 ∷ []) =
    let chunk = byte0 * 2 ^ 16 in
    char_at url_safe_chars (six_bits chunk 18) ∷ char_at url_safe_chars (six_bits chunk 12) ∷ []
format_base64_url_safe (byte0 ∷ byte1 ∷ []) =
    let chunk = bit_or (byte0 * 2 ^ 16) (byte1 * 2 ^ 8) in
    char_at url_safe_chars (six_bits chunk 18)
    ∷ char_at url_safe_chars (six_bits chunk 12)
    ∷ char_at url_safe_chars (six_bits chunk 6)
    ∷ []
format_base64_url_safe (byte0 ∷ byte1 ∷ byte2 ∷ data') =
    let chunk = chunk_of byte0 byte1 byte2 in
    char_at url_safe_chars (six_bits chunk 18)
    ∷ char_at url_safe_chars (six_bits chunk 12)
    ∷ char_at url_safe_chars (six_bits chunk 6)
    ∷ char_at url_safe_chars (six_bits chunk 0)
    ∷ format_base64_url_safe data'

-- The characters between the quotes.
unfoldable pub format_chunks : List ℕ → Text
format_chunks [] = []
format_chunks (byte0 ∷ []) =
    let chunk = byte0 * 2 ^ 16 in
    char_at base64_chars (six_bits chunk 18) ∷ char_at base64_chars (six_bits chunk 12) ∷ codes "=="
format_chunks (byte0 ∷ byte1 ∷ []) =
    let chunk = bit_or (byte0 * 2 ^ 16) (byte1 * 2 ^ 8) in
    char_at base64_chars (six_bits chunk 18)
    ∷ char_at base64_chars (six_bits chunk 12)
    ∷ char_at base64_chars (six_bits chunk 6)
    ∷ codes "="
format_chunks (byte0 ∷ byte1 ∷ byte2 ∷ data') =
    let chunk = chunk_of byte0 byte1 byte2 in
    char_at base64_chars (six_bits chunk 18)
    ∷ char_at base64_chars (six_bits chunk 12)
    ∷ char_at base64_chars (six_bits chunk 6)
    ∷ char_at base64_chars (six_bits chunk 0)
    ∷ format_chunks data'

abbrev pub format_base64 : List ℕ → Text
format_base64 data' = codes "\"" ++ format_chunks data' ++ codes "\""
