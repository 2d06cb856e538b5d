-- ===== src/EndpointPath/Segments.antt =====
-- How `pop_next_segment` takes a text apart.
use astarte_device_sdk_cpp.Base.{
  ℕ, ◌≡◌, ◌≢◌, refl, ◌⊎◌, ap, inl, inr, [], ◌∷◌, ◌++◌, Text, ◌==◌, find, arith, Bool-cases, ==_iff,
  All,
}
use astarte_device_sdk_cpp.EndpointPath.{pop_next_segment}

abbrev pub NoSlash : Text → Type 0
NoSlash s = All (λ c. c ≢ b'/') s

pop-cons :
    (c : ℕ) (s : Text)
    → c ≢ b'/'
    → pop_next_segment (c ∷ s) ≡ (c ∷ (pop_next_segment s).0, (pop_next_segment s).1)
unfolding pop_next_segment find
pop-cons c s h = ground arith

pub pop-slash : (s : Text) → pop_next_segment (b'/' ∷ s) ≡ ([], s)
unfolding pop_next_segment find
pop-slash s = refl

pub pop_last : (s : Text) → NoSlash s → pop_next_segment s ≡ (s, [])
pop_last [] h = unfold pop_next_segment find in refl
pop_last (c ∷ s) (h, hs) = rw (pop-cons c s h, pop_last s hs)

pub pop-append : (s r : Text) → NoSlash s → pop_next_segment (s ++ b'/' ∷ r) ≡ (s, r)
pop-append [] r h = pop-slash r
pop-append (c ∷ s) r (h, hs) = rw (pop-cons c (s ++ b'/' ∷ r) h, pop-append s r hs)

-- A text is its first segment, followed by nothing or by a slash and the rest.
abbrev pub Pops : Text → Text × Text → Type 0
Pops str (seg, rest) = NoSlash seg × ((str ≡ seg) × (rest ≡ []) ⊎ (str ≡ seg ++ b'/' ∷ rest))

Pops-cons :
    (c : ℕ) (s seg rest : Text) → c ≢ b'/' → Pops s (seg, rest) → Pops (c ∷ s) (c ∷ seg, rest)
Pops-cons c s seg rest h (hs, inl (e, f)) = ((h, hs), inl (ap (◌∷◌ c) e, f))
Pops-cons c s seg rest h (hs, inr e) = ((h, hs), inr (ap (◌∷◌ c) e))

pub pop-Pops : (s : Text) → Pops s (pop_next_segment s)
pop-Pops [] = rw (pop_last [] tt) (tt, inl (refl, refl))
pop-Pops (c ∷ s) = elim (Bool-cases (c == b'/')) [
  | inl e ↦ rw ((==_iff c b'/').0 e, pop-slash s) (tt, inr refl)
  | inr e ↦
      let h : c ≢ b'/' = ground arith in rw (pop-cons c s h) (Pops-cons c s _ _ h (pop-Pops s))
]
