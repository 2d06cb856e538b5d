-- ===== src/Base64/Decoding.antt =====
-- A decoder, and what the encoders' texts decode to.
use astarte_device_sdk_cpp.Base.{
  ℕ, zero, suc, ◌+◌, ◌*◌, ◌/◌, ◌%◌, ◌<◌, ◌≡◌, refl, ap, ◌∙◌, Bool, true, false, ◌&&◌, not, ==_iff,
  ◌==◌, if◌then◌else◌, Option, none, some, List, [], ◌∷◌, ◌++◌, Text, map, arith,
}
use astarte_device_sdk_cpp.Base64.{
  char_at, url_safe_chars, base64_chars, format_base64_url_safe, format_chunks,
}
use astarte_device_sdk_cpp.Base64.Places.{
  AreBytes, AreSixBits, places, padding, places-AreSixBits, format_base64_url_safe-places,
  format_chunks-places,
}

-- The place of a character.
unfoldable pub index_of : Text → ℕ → Option ℕ
index_of [] c = none
index_of (d ∷ chars) c =
    if d == c then some 0 else elim (index_of chars c) [ none ↦ none | some n ↦ some (suc n) ]

abbrev and_rest : Option ℕ → Option (List ℕ) → Option (List ℕ)
and_rest none rest = none
and_rest (some n) none = none
and_rest (some n) (some rest) = some (n ∷ rest)

unfoldable pub indices : Text → Text → Option (List ℕ)
indices chars [] = some []
indices chars (c ∷ text) = and_rest (index_of chars c) (indices chars text)

-- Four places hold three bytes, three hold two, and two hold one.
unfoldable pub bytes_of : List ℕ → List ℕ
bytes_of [] = []
bytes_of (w ∷ []) = []
bytes_of (w ∷ x ∷ []) = (w * 64 + x) / 16 ∷ []
bytes_of (w ∷ x ∷ y ∷ []) = (w * 64 + x) / 16 ∷ (x * 64 + y) / 4 % 256 ∷ []
bytes_of (w ∷ x ∷ y ∷ z ∷ places) =
    (w * 64 + x) / 16 ∷ (x * 64 + y) / 4 % 256 ∷ (y * 64 + z) % 256 ∷ bytes_of places

abbrev all_bytes : Option (List ℕ) → Option (List ℕ)
all_bytes none = none
all_bytes (some places) = some (bytes_of places)

unfoldable pub decode : Text → Text → Option (List ℕ)
decode chars text = all_bytes (indices chars text)

only_byte : (b0 : ℕ) → (b0 / 4 * 64 + b0 % 4 * 16) / 16 ≡ b0
only_byte b0 = omega arith

first_byte : (b0 b1 : ℕ) → b1 < 256 → (b0 / 4 * 64 + (b0 % 4 * 16 + b1 / 16)) / 16 ≡ b0
first_byte b0 b1 h = omega arith

last_of_two : (b0 b1 : ℕ) → b1 < 256 → ((b0 % 4 * 16 + b1 / 16) * 64 + b1 % 16 * 4) / 4 % 256 ≡ b1
last_of_two b0 b1 h = omega arith

second_byte :
    (b0 b1 b2 : ℕ)
    → b1 < 256
    → b2 < 256
    → ((b0 % 4 * 16 + b1 / 16) * 64 + (b1 % 16 * 4 + b2 / 64)) / 4 % 256 ≡ b1
second_byte b0 b1 b2 h k = omega arith

third_byte : (b1 b2 : ℕ) → b2 < 256 → ((b1 % 16 * 4 + b2 / 64) * 64 + b2 % 64) % 256 ≡ b2
third_byte b1 b2 h = omega arith

bytes_of-places : (data' : List ℕ) → AreBytes data' → bytes_of (places data') ≡ data'
unfolding bytes_of places
bytes_of-places [] h = refl
bytes_of-places (b0 ∷ []) h = ap (λ b. b ∷ []) (only_byte b0)
bytes_of-places (b0 ∷ b1 ∷ []) (h0, (h1, _)) = rw (first_byte b0 b1 h1, last_of_two b0 b1 h1) refl
bytes_of-places (b0 ∷ b1 ∷ b2 ∷ data') (h0, (h1, (h2, h))) =
    rw
      (
        first_byte b0 b1 h1,
        second_byte b0 b1 b2 h1 h2,
        third_byte b1 b2 h2,
        bytes_of-places data' h,
      )
      refl

-- An alphabet in which each of the 64 characters is found at its place.
abbrev pub IsAlphabet : Text → Type 0
IsAlphabet chars = (n : ℕ) → n < 64 → index_of chars (char_at chars n) ≡ some n

indices-looked_up :
    (chars : Text)
    → IsAlphabet chars
    → (ns : List ℕ) → AreSixBits ns
    → indices chars (map (char_at chars) ns) ≡ some ns
unfolding indices
indices-looked_up chars law [] h = refl
indices-looked_up chars law (n ∷ ns) (k, h) = rw (law n k, indices-looked_up chars law ns h) refl

decode-looked_up :
    (chars : Text) (data' : List ℕ)
    → IsAlphabet chars
    → AreBytes data'
    → decode chars (map (char_at chars) (places data')) ≡ some data'
unfolding decode
decode-looked_up chars data' law h =
    ap all_bytes (indices-looked_up chars law (places data') (places-AreSixBits data' h))
    ∙ ap some (bytes_of-places data' h)

-- A check of all numbers below a bound.
holds_below : ℕ → (ℕ → Bool) → Bool
holds_below zero p = true
holds_below (suc n) p = p n && holds_below n p

each_below : (n : ℕ) (p : ℕ → Bool) (k : ℕ) → holds_below n p ≡ true → k < n → p k ≡ true
unfolding holds_below
each_below zero p k h lt = absurd (omega arith)
each_below (suc n) p k h lt = ground (arith, each_below n p k)

-- Whether a place is found again, and holds no "=".
is_found : Text → ℕ → Bool
is_found chars n = elim (index_of chars (char_at chars n)) [ none ↦ false | some m ↦ m == n ]

is_found-index_of :
    (chars : Text) (n : ℕ) → is_found chars n ≡ true → index_of chars (char_at chars n) ≡ some n
unfolding is_found
is_found-index_of chars n h = at_index (index_of chars (char_at chars n)) h
  where
    at_index : (i : Option ℕ) → elim i [ none ↦ false | some m ↦ m == n ] ≡ true → i ≡ some n
    at_index none h = absurd cc
    at_index (some m) h = ap some ((==_iff m n).0 h)

pub url_safe_chars-IsAlphabet : IsAlphabet url_safe_chars
url_safe_chars-IsAlphabet n h =
    is_found-index_of url_safe_chars n (each_below 64 (is_found url_safe_chars) n table h)
  where
    table : holds_below 64 (is_found url_safe_chars) ≡ true
    table = unfold holds_below is_found index_of char_at in refl

base64_chars-IsAlphabet : IsAlphabet base64_chars
base64_chars-IsAlphabet n h =
    is_found-index_of base64_chars n (each_below 64 (is_found base64_chars) n table h)
  where
    table : holds_below 64 (is_found base64_chars) ≡ true
    table = unfold holds_below is_found index_of char_at in refl

-- The text up to the first "=".
unfoldable pub unpadded : Text → Text
unpadded [] = []
unpadded (c ∷ text) = let rest = unpadded text in if c == b'=' then [] else c ∷ rest

no_padding_char : (n : ℕ) → n < 64 → (char_at base64_chars n == b'=') ≡ false
no_padding_char n h =
    ground (arith, each_below 64 (λ k. not (char_at base64_chars k == b'=')) n table h)
  where
    table : holds_below 64 (λ k. not (char_at base64_chars k == b'=')) ≡ true
    table = unfold holds_below char_at in refl

padding-unpadded : (data' : List ℕ) → unpadded (padding data') ≡ []
unfolding unpadded padding
padding-unpadded [] = refl
padding-unpadded (b0 ∷ []) = refl
padding-unpadded (b0 ∷ b1 ∷ []) = refl
padding-unpadded (b0 ∷ b1 ∷ b2 ∷ data') = padding-unpadded data'

unpadded-append :
    (ns : List ℕ) (data' : List ℕ)
    → AreSixBits ns
    → unpadded (map (char_at base64_chars) ns ++ padding data') ≡ map (char_at base64_chars) ns
unfolding unpadded
unpadded-append [] data' h = padding-unpadded data'
unpadded-append (n ∷ ns) data' (k, h) =
    rw (no_padding_char n k) (ap (λ t. char_at base64_chars n ∷ t) (unpadded-append ns data' h))

-- The text of a device's identifier decodes to its bytes: so two sequences of bytes have the same
-- text only if they are the same.
pub decode-format_base64_url_safe :
    (data' : List ℕ)
    → AreBytes data'
    → decode url_safe_chars (format_base64_url_safe data') ≡ some data'
decode-format_base64_url_safe data' h =
    ap (decode url_safe_chars) (format_base64_url_safe-places data' h)
    ∙ decode-looked_up url_safe_chars data' url_safe_chars-IsAlphabet h

-- The text that the formatter writes between the quotes decodes to the bytes once its padding is
-- taken off.
pub decode-format_chunks :
    (data' : List ℕ)
    → AreBytes data'
    → decode base64_chars (unpadded (format_chunks data')) ≡ some data'
decode-format_chunks data' h =
    ap (λ t. decode base64_chars (unpadded t)) (format_chunks-places data' h)
    ∙ ap (decode base64_chars) (unpadded-append (places data') data' (places-AreSixBits data' h))
    ∙ decode-looked_up base64_chars data' base64_chars-IsAlphabet h
