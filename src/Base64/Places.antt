-- ===== src/Base64/Places.antt =====
-- The places in the alphabet that the encoders look up.
use Prim.Native.Nat.{bit_or}
use astarte_device_sdk_cpp.Base.{
  ℕ, ◌+◌, ◌*◌, ◌/◌, ◌%◌, ◌^◌, ◌<◌, ◌≡◌, refl, ap, ◌∙◌, List, [], ◌∷◌, ◌++◌, Text, codes, length,
  map, arith,
}
use astarte_device_sdk_cpp.Base.Bits.{and_63, or_shifted}
use astarte_device_sdk_cpp.Base64.{
  char_at, url_safe_chars, base64_chars, chunk_of, six_bits, format_base64_url_safe, format_chunks,
}

-- Numbers that are bytes.
abbrev pub AreBytes : List ℕ → Type 0
AreBytes [] = Unit
AreBytes (b ∷ data') = (b < 256) × AreBytes data'

-- The places that the encoders look up.
unfoldable pub places : List ℕ → List ℕ
places [] = []
places (b0 ∷ []) = (b0 / 4) ∷ (b0 % 4 * 16) ∷ []
places (b0 ∷ b1 ∷ []) = (b0 / 4) ∷ (b0 % 4 * 16 + b1 / 16) ∷ (b1 % 16 * 4) ∷ []
places (b0 ∷ b1 ∷ b2 ∷ data') =
    (b0 / 4) ∷ (b0 % 4 * 16 + b1 / 16) ∷ (b1 % 16 * 4 + b2 / 64) ∷ (b2 % 64) ∷ places data'

abbrev pub AreSixBits : List ℕ → Type 0
AreSixBits [] = Unit
AreSixBits (n ∷ ns) = (n < 64) × AreSixBits ns

pub places-AreSixBits : (data' : List ℕ) → AreBytes data' → AreSixBits (places data')
unfolding places
places-AreSixBits [] h = tt
places-AreSixBits (b0 ∷ []) (h0, _) = (omega arith, (omega arith, tt))
places-AreSixBits (b0 ∷ b1 ∷ []) (h0, (h1, _)) = (omega arith, (omega arith, (omega arith, tt)))
places-AreSixBits (b0 ∷ b1 ∷ b2 ∷ data') (h0, (h1, (h2, h))) =
    (omega arith, (omega arith, (omega arith, (omega arith, places-AreSixBits data' h))))

six_bits-mod : (chunk shift : ℕ) → six_bits chunk shift ≡ chunk / 2 ^ shift % 64
unfolding six_bits
six_bits-mod chunk shift = and_63 (chunk / 2 ^ shift)

two_bytes : (b0 b1 : ℕ) → b1 < 256 → bit_or (b0 * 2 ^ 16) (b1 * 2 ^ 8) ≡ b0 * 65536 + b1 * 256
two_bytes b0 b1 h = or_shifted 16 b0 (b1 * 256) (omega arith)

chunk_of-sum : (b0 b1 b2 : ℕ) → b1 < 256 → b2 < 256 → chunk_of b0 b1 b2 ≡ b0 * 65536 + b1 * 256 + b2
unfolding chunk_of
chunk_of-sum b0 b1 b2 h k =
    ap (λ high. bit_or high b2) (two_bytes b0 b1 h ∙ regroup b0 b1)
    ∙ or_shifted 8 (b0 * 256 + b1) b2 k
    ∙ omega arith
  where
    regroup : (b0 b1 : ℕ) → b0 * 65536 + b1 * 256 ≡ (b0 * 256 + b1) * 256
    regroup b0 b1 = omega arith

-- What the four shifts take out of a chunk.
six_bits-sum :
    (b0 b1 b2 chunk : ℕ)
    → b1 < 256
    → b2 < 256
    → chunk ≡ b0 * 65536 + b1 * 256 + b2
    → b0 < 256
    → (six_bits chunk 18 ≡ b0 / 4)
      × (six_bits chunk 12 ≡ b0 % 4 * 16 + b1 / 16)
      × (six_bits chunk 6 ≡ b1 % 16 * 4 + b2 / 64)
      × (six_bits chunk 0 ≡ b2 % 64)
six_bits-sum b0 b1 b2 chunk h1 h2 e h0 = (
  six_bits-mod chunk 18 ∙ omega arith,
  six_bits-mod chunk 12 ∙ omega arith,
  six_bits-mod chunk 6 ∙ omega arith,
  six_bits-mod chunk 0 ∙ omega arith,
)

six_bits_of_one :
    (b0 : ℕ)
    → b0 < 256
    → (six_bits (b0 * 2 ^ 16) 18 ≡ b0 / 4) × (six_bits (b0 * 2 ^ 16) 12 ≡ b0 % 4 * 16)
six_bits_of_one b0 h =
    let (p, q, _, _) =
      six_bits-sum b0 0 0 (b0 * 2 ^ 16) (omega arith) (omega arith) (omega arith) h in
    (p, q ∙ omega arith)

six_bits_of_two :
    (b0 b1 : ℕ)
    → b0 < 256
    → b1 < 256
    → (let chunk = bit_or (b0 * 2 ^ 16) (b1 * 2 ^ 8) in
        (six_bits chunk 18 ≡ b0 / 4)
        × (six_bits chunk 12 ≡ b0 % 4 * 16 + b1 / 16)
        × (six_bits chunk 6 ≡ b1 % 16 * 4))
six_bits_of_two b0 b1 h0 h1 =
    let (p, q, r, _) =
      six_bits-sum b0 b1 0 (bit_or (b0 * 2 ^ 16) (b1 * 2 ^ 8)) h1 (omega arith)
        (two_bytes b0 b1 h1 ∙ omega arith) h0 in
    (p, q, r ∙ omega arith)

pub format_base64_url_safe-places :
    (data' : List ℕ)
    → AreBytes data'
    → format_base64_url_safe data' ≡ map (char_at url_safe_chars) (places data')
unfolding format_base64_url_safe places
format_base64_url_safe-places [] h = refl
format_base64_url_safe-places (b0 ∷ []) (h0, _) =
    let (p, q) = six_bits_of_one b0 h0 in rw (p, q) refl
format_base64_url_safe-places (b0 ∷ b1 ∷ []) (h0, (h1, _)) =
    let (p, q, r) = six_bits_of_two b0 b1 h0 h1 in rw (p, q, r) refl
format_base64_url_safe-places (b0 ∷ b1 ∷ b2 ∷ data') (h0, (h1, (h2, h))) =
    let (p, q, r, s) =
      six_bits-sum b0 b1 b2 (chunk_of b0 b1 b2) h1 h2 (chunk_of-sum b0 b1 b2 h1 h2) h0 in
    rw (p, q, r, s, format_base64_url_safe-places data' h) refl

unfoldable pub padding : List ℕ → Text
padding [] = []
padding (b0 ∷ []) = codes "=="
padding (b0 ∷ b1 ∷ []) = codes "="
padding (b0 ∷ b1 ∷ b2 ∷ data') = padding data'

pub format_chunks-places :
    (data' : List ℕ)
    → AreBytes data'
    → format_chunks data' ≡ map (char_at base64_chars) (places data') ++ padding data'
unfolding format_chunks places padding
format_chunks-places [] h = refl
format_chunks-places (b0 ∷ []) (h0, _) = let (p, q) = six_bits_of_one b0 h0 in rw (p, q) refl
format_chunks-places (b0 ∷ b1 ∷ []) (h0, (h1, _)) =
    let (p, q, r) = six_bits_of_two b0 b1 h0 h1 in rw (p, q, r) refl
format_chunks-places (b0 ∷ b1 ∷ b2 ∷ data') (h0, (h1, (h2, h))) =
    let (p, q, r, s) =
      six_bits-sum b0 b1 b2 (chunk_of b0 b1 b2) h1 h2 (chunk_of-sum b0 b1 b2 h1 h2) h0 in
    rw (p, q, r, s, format_chunks-places data' h) refl

-- Four characters for each three bytes, and one more than the bytes that are left over.
pub length-format_base64_url_safe :
    (data' : List ℕ) → length (format_base64_url_safe data') ≡ (length data' * 4 + 2) / 3
unfolding format_base64_url_safe
length-format_base64_url_safe [] = refl
length-format_base64_url_safe (b0 ∷ []) = refl
length-format_base64_url_safe (b0 ∷ b1 ∷ []) = refl
length-format_base64_url_safe (b0 ∷ b1 ∷ b2 ∷ data') =
    omega (arith, length-format_base64_url_safe data')
