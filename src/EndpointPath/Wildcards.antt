-- ===== src/EndpointPath/Wildcards.antt =====
-- What a matching path may hold, and why the fuel of the loop is enough.
use astarte_device_sdk_cpp.Base.{
  ℕ, zero, suc, ◌<◌, ◌≡◌, ◌≢◌, ◌↔◌, ◌⊎◌, refl, ap, subst, inl, inr, true, false, not, [], ◌∷◌, ◌++◌,
  Text, if◌then◌else◌, arith, length, is_empty, length-append, Bool-cases, All, All-append,
  All-append_inv, text_eq, text_eq_iff,
}
use astarte_device_sdk_cpp.EndpointPath.{
  pop_next_segment, is_segment_match, is_parameter, has_wildcard, opens_parameter, starts_with_byte,
  ends_with_byte, match_loop, match_fronts, match_path,
}
use astarte_device_sdk_cpp.EndpointPath.Segments.{Pops, pop-Pops}

-- No MQTT wildcard among the bytes.
abbrev pub NoWildcard : Text → Type 0
NoWildcard s = All (λ c. (c ≢ b'#') × (c ≢ b'+')) s

has_wildcard_iff : (s : Text) → (has_wildcard s ≡ false) ↔ NoWildcard s
unfolding has_wildcard
has_wildcard_iff [] = (λ e. tt, λ h. refl)
has_wildcard_iff (c ∷ s) = ground (arith, has_wildcard_iff s)

-- A segment such as "%{sensor}".
abbrev pub parameter : Text → Text
parameter name = b'%' ∷ b'{' ∷ name ++ b'}' ∷ []

closing : (name : Text) → ends_with_byte b'}' (name ++ b'}' ∷ []) ≡ true
unfolding ends_with_byte
closing [] = refl
closing (a ∷ []) = refl
closing (a ∷ b ∷ name) = closing (b ∷ name)

is_parameter-parameter : (name : Text) → is_parameter (parameter name) ≡ true
unfolding is_parameter opens_parameter starts_with_byte
is_parameter-parameter name =
    ground (arith, closing (b'%' ∷ b'{' ∷ name), length-append name (b'}' ∷ []))

unclose : (s : Text) → ends_with_byte b'}' s ≡ true → (name : Text) × (s ≡ name ++ b'}' ∷ [])
unfolding ends_with_byte
unclose [] h = cc
unclose (a ∷ []) h = ([], ground arith)
unclose (a ∷ b ∷ s) h = let (name, e) = unclose (b ∷ s) h in (a ∷ name, ap (◌∷◌ a) e)

ends-drop :
    (a b c : ℕ) (s : Text) → ends_with_byte b'}' (a ∷ b ∷ c ∷ s) ≡ ends_with_byte b'}' (c ∷ s)
unfolding ends_with_byte
ends-drop a b c s = refl

is_parameter_inv : (p : Text) → is_parameter p ≡ true → (name : Text) × (p ≡ parameter name)
unfolding is_parameter opens_parameter starts_with_byte
is_parameter_inv [] h = cc
is_parameter_inv (a ∷ []) h = cc
is_parameter_inv (a ∷ b ∷ []) h = cc
is_parameter_inv (a ∷ b ∷ c ∷ s) h =
    let (name, e) = unclose (c ∷ s) (ground (arith, ends-drop a b c s)) in (name, ground arith)

NonEmpty-cases : (s : Text) → ((is_empty s ≡ false) × (s ≢ [])) ⊎ ((is_empty s ≡ true) × (s ≡ []))
NonEmpty-cases [] = inr (refl, refl)
NonEmpty-cases (c ∷ s) = inl (refl, λ e. cc)

-- When a path segment fits the segment of an endpoint: that is a parameter, and the path segment
-- is not empty and free of wildcards; or it is no parameter, and the two are equal.
abbrev pub Fits : Text → Text → Type 0
Fits pattern seg =
    ((name : Text) × (pattern ≡ parameter name) × (seg ≢ []) × NoWildcard seg)
    ⊎ ((¬ ((name : Text) × (pattern ≡ parameter name))) × (pattern ≡ seg))

parameter_case :
    (pattern name seg : Text)
    → pattern ≡ parameter name
    → ((if is_empty seg then false else not (has_wildcard seg)) ≡ true) ↔ Fits pattern seg
parameter_case pattern name seg p = (
  λ h. elim (NonEmpty-cases seg) [
    | inl (full, ne) ↦ inl (name, p, ne, (has_wildcard_iff seg).0 (ground arith))
    | inr (e, _) ↦ ground arith
  ],
  λ f. elim f [
    | inl (_, _, ne, clean) ↦ elim (NonEmpty-cases seg) [
      | inl (full, _) ↦ let w = (has_wildcard_iff seg).1 clean in ground arith
      | inr (_, e) ↦ absurd (ne e)
    ]
    | inr (no_name, _) ↦ absurd (no_name (name, p))
  ],
)

literal_case :
    (pattern seg : Text)
    → is_parameter pattern ≡ false
    → (text_eq pattern seg ≡ true) ↔ Fits pattern seg
literal_case pattern seg e = (
  λ h. inr (λ (name, p). no_parameter name p, (text_eq_iff pattern seg).0 h),
  λ f. elim f [
    | inl (name, p, _, _) ↦ absurd (no_parameter name p)
    | inr (_, same) ↦ (text_eq_iff pattern seg).1 same
  ],
)
  where
    no_parameter : (name : Text) → pattern ≢ parameter name
    no_parameter name p = cc (is_parameter-parameter name)

-- `is_segment_match` decides `Fits`: a path segment matches a parameter "%{…}" exactly when it is
-- not empty and free of "#" and "+", and any other segment of an endpoint exactly when equal to it.
pub is_segment_match_iff :
    (pattern seg : Text) → (is_segment_match pattern seg ≡ true) ↔ Fits pattern seg
unfolding is_segment_match
is_segment_match_iff pattern seg = elim (Bool-cases (is_parameter pattern)) [
  | inl e ↦ let (name, p) = is_parameter_inv pattern e in rw e (parameter_case pattern name seg p)
  | inr e ↦ rw e (literal_case pattern seg e)
]

Pops-NoWildcard :
    (s seg rest : Text) → Pops s (seg, rest) → NoWildcard s → NoWildcard seg × NoWildcard rest
Pops-NoWildcard s seg rest (_, inl (e, f)) h = (rw (← e) h, rw f tt)
Pops-NoWildcard s seg rest (_, inr e) h =
    let (hs, hr) = All-append_inv _ seg (b'/' ∷ rest) (subst NoWildcard e h) in (hs, hr.1)

Pops-back :
    (s seg rest : Text) → Pops s (seg, rest) → NoWildcard seg → NoWildcard rest → NoWildcard s
Pops-back s seg rest (_, inl (e, f)) h k = rw e h
Pops-back s seg rest (_, inr e) h k = rw e (All-append _ seg (b'/' ∷ rest) h (omega arith, k))

Fits-NoWildcard : (pattern seg : Text) → Fits pattern seg → NoWildcard pattern → NoWildcard seg
Fits-NoWildcard pattern seg (inl (_, _, _, clean)) h = clean
Fits-NoWildcard pattern seg (inr (_, e)) h = rw (← e) h

is_empty-inv : (s : Text) → is_empty s ≡ true → s ≡ []
is_empty-inv [] h = refl
is_empty-inv (c ∷ s) h = cc

-- One round of the loop that ends in a match: both views are used up, or their segments match and
-- the rest matches.
match_loop_step :
    (fuel : ℕ) (e p : Text)
    → match_loop (suc fuel) e p ≡ true
    → (p ≡ [])
      ⊎ ((is_segment_match (pop_next_segment e).0 (pop_next_segment p).0 ≡ true)
          × (match_loop fuel (pop_next_segment e).1 (pop_next_segment p).1 ≡ true))
unfolding match_loop
match_loop_step fuel e p h = elim (Bool-cases (is_empty p)) [
  | inl q ↦ inl (is_empty-inv p q)
  | inr q ↦ inr (ground arith, ground arith)
]

match_loop-NoWildcard :
    (fuel : ℕ) (e p : Text) → match_loop fuel e p ≡ true → NoWildcard e → NoWildcard p
match_loop-NoWildcard zero e p h k = unfold match_loop in cc
match_loop-NoWildcard (suc fuel) e p h k = elim (match_loop_step fuel e p h) [
  | inl q ↦ rw q tt
  | inr (seg, rest) ↦
      let (ke, kr) = Pops-NoWildcard e _ _ (pop-Pops e) k in
      Pops-back p _ _ (pop-Pops p) (Fits-NoWildcard _ _ ((is_segment_match_iff _ _).0 seg) ke)
        (match_loop-NoWildcard fuel _ _ rest kr)
]

-- A path that matches an endpoint without "#" and "+" holds neither.
pub match_path-NoWildcard :
    (endpoint path : Text) → match_path endpoint path ≡ true → NoWildcard endpoint → NoWildcard path
unfolding match_path match_fronts
match_path-NoWildcard [] path h k = ground arith
match_path-NoWildcard (e ∷ endpoint) [] h k = tt
match_path-NoWildcard (e ∷ endpoint) (p ∷ path) h (ke, k) =
    (ground arith, match_loop-NoWildcard (suc (length path)) endpoint path (ground arith) k)

Pops-shrinks : (s seg rest : Text) → Pops s (seg, rest) → s ≢ [] → length rest < length s
Pops-shrinks [] seg rest _ ne = absurd (ne refl)
Pops-shrinks (c ∷ s) seg rest (_, inl (e, f)) ne = rw f (omega arith)
Pops-shrinks (c ∷ s) seg rest (_, inr e) ne =
    omega (arith, ap length e, length-append seg (b'/' ∷ rest))

-- The loop ends by its own test: beyond the length of the path, fuel changes nothing. `match_path`
-- gives it one more than that length.
pub match_loop_fuel :
    (f g : ℕ) (e p : Text) → length p < f → length p < g → match_loop f e p ≡ match_loop g e p
unfolding match_loop
match_loop_fuel zero g e p hf hg = absurd (omega arith)
match_loop_fuel (suc f) zero e p hf hg = absurd (omega arith)
match_loop_fuel (suc f) (suc g) e p hf hg = elim (NonEmpty-cases p) [
  | inl (q, ne) ↦
      let less = Pops-shrinks p _ _ (pop-Pops p) ne in
      let ih =
        match_loop_fuel f g (pop_next_segment e).1 (pop_next_segment p).1 (omega arith)
          (omega arith) in
      rw ih refl
  | inr (q, _) ↦ ground arith
]
