-- ===== src/EndpointPath/Joined.antt =====
-- `match_path` on texts that are written as their segments: it compares them one by one.
use astarte_device_sdk_cpp.Base.{
  ℕ, zero, suc, ◌≤◌, ◌<◌, ◌≡◌, ◌≢◌, refl, ◌∙◌, Bool, true, false, ◌&&◌, List, [], ◌∷◌, ◌++◌, Text,
  arith, length, is_empty, length-append,
}
use astarte_device_sdk_cpp.EndpointPath.{
  pop_next_segment, is_segment_match, ends_with_byte, match_loop, match_fronts, match_path,
}
use astarte_device_sdk_cpp.EndpointPath.Segments.{NoSlash, pop_last, pop-append}

-- The segments with a slash between each two.
unfoldable pub join : List Text → Text
join [] = []
join (s ∷ []) = s
join (s ∷ t ∷ ss) = s ++ b'/' ∷ join (t ∷ ss)

-- Segments hold no slash, there is at least one, and the last is not empty.
abbrev pub IsSplit : List Text → Type 0
IsSplit [] = ⊥
IsSplit (s ∷ []) = NoSlash s × (s ≢ [])
IsSplit (s ∷ t ∷ ss) = NoSlash s × IsSplit (t ∷ ss)

-- The specification: as many segments on both sides, and each fits.
unfoldable pub matches : List Text → List Text → Bool
matches [] [] = true
matches [] (p ∷ ps) = false
matches (e ∷ es) [] = false
matches (e ∷ es) (p ∷ ps) = is_segment_match e p && matches es ps

append-ne-nil : (s r : Text) (c : ℕ) → is_empty (s ++ c ∷ r) ≡ false
append-ne-nil [] r c = refl
append-ne-nil (a ∷ s) r c = refl

ne-nil : (s : Text) → s ≢ [] → is_empty s ≡ false
ne-nil [] h = absurd (h refl)
ne-nil (a ∷ s) h = refl

is_empty-join : (ss : List Text) → IsSplit ss → is_empty (join ss) ≡ false
unfolding join
is_empty-join [] h = absurd h
is_empty-join (s ∷ []) h = ne-nil s h.1
is_empty-join (s ∷ t ∷ ss) h = append-ne-nil s (join (t ∷ ss)) b'/'

pop-join :
    (s : Text) (ss : List Text) → IsSplit (s ∷ ss) → pop_next_segment (join (s ∷ ss)) ≡ (s, join ss)
unfolding join
pop-join s [] h = pop_last s h.0
pop-join s (t ∷ ss) h = pop-append s (join (t ∷ ss)) h.0

-- What is left of a split text is split, or used up.
abbrev Rest : List Text → Type 0
Rest [] = Unit
Rest (s ∷ ss) = IsSplit (s ∷ ss)

Rest-tail : (s : Text) (ss : List Text) → IsSplit (s ∷ ss) → Rest ss
Rest-tail s [] h = tt
Rest-tail s (t ∷ ss) h = h.1

is_empty-join_nil : is_empty (join []) ≡ true
unfolding join
is_empty-join_nil = refl

match_loop-join :
    (fuel : ℕ) (es ps : List Text)
    → Rest es
    → Rest ps
    → length ps < fuel
    → match_loop fuel (join es) (join ps) ≡ matches es ps
unfolding match_loop matches
match_loop-join zero es ps he hp h = absurd (omega arith)
match_loop-join (suc fuel) [] [] he hp h = ground (arith, is_empty-join_nil)
match_loop-join (suc fuel) [] (p ∷ ps) he hp h =
    ground (arith, is_empty-join_nil, is_empty-join (p ∷ ps) hp)
match_loop-join (suc fuel) (e ∷ es) [] he hp h =
    ground (arith, is_empty-join_nil, is_empty-join (e ∷ es) he)
match_loop-join (suc fuel) (e ∷ es) (p ∷ ps) he hp h = ground (
  arith,
  is_empty-join (e ∷ es) he,
  is_empty-join (p ∷ ps) hp,
  pop-join e es he,
  pop-join p ps hp,
  match_loop-join fuel es ps (Rest-tail e es he) (Rest-tail p ps hp),
)

length-join : (ss : List Text) → IsSplit ss → length ss ≤ length (join ss)
unfolding join
length-join [] h = absurd h
length-join ([] ∷ []) h = absurd (h.1 refl)
length-join ((c ∷ s) ∷ []) h = omega arith
length-join (s ∷ t ∷ ss) h =
    omega (arith, length-join (t ∷ ss) h.1, length-append s (b'/' ∷ join (t ∷ ss)))

length-split : (ss : List Text) → IsSplit ss → 1 ≤ length ss
length-split [] h = absurd h
length-split (s ∷ ss) h = omega arith

IsSplit-Rest : (ss : List Text) → IsSplit ss → Rest ss
IsSplit-Rest [] h = absurd h
IsSplit-Rest (s ∷ ss) h = h

ends-cons :
    (c : ℕ) (s : Text) → is_empty s ≡ false → ends_with_byte b'/' (c ∷ s) ≡ ends_with_byte b'/' s
unfolding ends_with_byte
ends-cons c [] h = cc
ends-cons c (a ∷ s) h = refl

ends-append :
    (s r : Text) → is_empty r ≡ false → ends_with_byte b'/' (s ++ b'/' ∷ r) ≡ ends_with_byte b'/' r
ends-append [] r h = ends-cons b'/' r h
ends-append (c ∷ s) r h = ends-cons c _ (append-ne-nil s r b'/') ∙ ends-append s r h

ends-NoSlash : (s : Text) → NoSlash s → ends_with_byte b'/' s ≡ false
unfolding ends_with_byte
ends-NoSlash [] h = refl
ends-NoSlash (c ∷ []) (h, _) = ground arith
ends-NoSlash (c ∷ d ∷ s) (h, hs) = ends-NoSlash (d ∷ s) hs

ends-join : (ss : List Text) → IsSplit ss → ends_with_byte b'/' (join ss) ≡ false
unfolding join
ends-join [] h = absurd h
ends-join (s ∷ []) h = ends-NoSlash s h.0
ends-join (s ∷ t ∷ ss) h =
    ends-append s (join (t ∷ ss)) (is_empty-join (t ∷ ss) h.1) ∙ ends-join (t ∷ ss) h.1

-- A path or an endpoint: each segment behind a slash.
abbrev pub path_of : List Text → Text
path_of ss = b'/' ∷ join ss

-- For an endpoint and a path that are given by their segments (at least one, none with a slash,
-- the last not empty), `match_path` is true exactly when both have the same number of segments
-- and each segment of the path fits the one of the endpoint.
pub match_path-join :
    (es ps : List Text)
    → IsSplit es
    → IsSplit ps
    → match_path (path_of es) (path_of ps) ≡ matches es ps
unfolding match_path match_fronts
match_path-join es ps he hp = ground (
  arith,
  length-join ps hp,
  length-split ps hp,
  ends-cons b'/' (join ps) (is_empty-join ps hp),
  ends-join ps hp,
  match_loop-join (suc (length (join ps))) es ps (IsSplit-Rest es he) (IsSplit-Rest ps hp),
)
