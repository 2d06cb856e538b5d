-- ===== src/Base/Lists.antt =====
-- Lists measured by native numbers, and predicates over a list.
use Prim.Native.Nat.{ℕ, zero, suc, ◌+◌}
use mathlib.Core.Path.{◌≡◌, refl}
use mathlib.Core.Logic.{◌≢◌, ◌⊎◌, inl, inr}
use mathlib.Core.Bool.{Bool, true, ◌&&◌}
use mathlib.Core.Option
use mathlib.Core.Option.{Option, none, some}
use mathlib.Core.List.{List, [], ◌∷◌, ◌++◌}
use native.Mathlib.Omega.{arith}
use astarte_device_sdk_cpp.Base.Tests.{◌==◌, if◌then◌else◌}

module _ {ℓ} {A : Type ℓ} where
  abbrev pub length : List A → ℕ
  length [] = 0
  length (x ∷ xs) = suc (length xs)

  abbrev pub is_empty : List A → Bool
  is_empty [] = true
  is_empty (x ∷ xs) = Bool.false

  abbrev pub all : (A → Bool) → List A → Bool
  all p [] = true
  all p (x ∷ xs) = p x && all p xs

  abbrev pub take : ℕ → List A → List A
  take zero xs = []
  take (suc n) [] = []
  take (suc n) (x ∷ xs) = x ∷ take n xs

  abbrev pub drop : ℕ → List A → List A
  drop zero xs = xs
  drop (suc n) [] = []
  drop (suc n) (x ∷ xs) = drop n xs

  pub length-append : (xs ys : List A) → length (xs ++ ys) ≡ length xs + length ys
  length-append [] ys = omega arith
  length-append (x ∷ xs) ys = omega (arith, length-append xs ys)

module _ {ℓ κ} {A : Type ℓ} (P : A → Type κ) where
  abbrev pub All : List A → Type κ
  All [] = Unit
  All (x ∷ xs) = P x × All xs

  pub All-append : (xs ys : List A) → All xs → All ys → All (xs ++ ys)
  All-append [] ys hx hy = hy
  All-append (x ∷ xs) ys (p, hx) hy = (p, All-append xs ys hx hy)

  pub All-append_inv : (xs ys : List A) → All (xs ++ ys) → All xs × All ys
  All-append_inv [] ys h = (tt, h)
  All-append_inv (x ∷ xs) ys (p, h) = let (hx, hy) = All-append_inv xs ys h in ((p, hx), hy)

-- `str.find(c)`: the position of the first such byte.
unfoldable pub find : ℕ → List ℕ → Option ℕ
find c [] = none
find c (a ∷ s) = if a == c then some 0 else Option.map suc (find c s)

-- No such byte.
abbrev pub Without : ℕ → List ℕ → Type 0
Without c s = All (λ d. d ≢ c) s

-- The first mark tells where the front ends.
pub cut :
    (c : ℕ) (a b s t : List ℕ)
    → Without c a
    → Without c b
    → a ++ c ∷ s ≡ b ++ c ∷ t
    → (a ≡ b) × (s ≡ t)
cut c [] [] s t ha hb e = (refl, cc)
cut c [] (d ∷ b) s t ha (h, hb) e = absurd (h cc)
cut c (d ∷ a) [] s t (h, ha) hb e = absurd (h cc)
cut c (d ∷ a) (d' ∷ b) s t (h, ha) (h', hb) e = let (p, q) = cut c a b s t ha hb cc in (cc, q)

-- Nothing, or a text that starts with the mark.
abbrev pub Marked : ℕ → List ℕ → Type 0
Marked c s = (s ≡ []) ⊎ ((t : List ℕ) × (s ≡ c ∷ t))

-- The end of the text or the first mark tells where the front ends.
pub cut_end :
    (c : ℕ) (a b s t : List ℕ)
    → Without c a
    → Without c b
    → Marked c s
    → Marked c t
    → a ++ s ≡ b ++ t
    → (a ≡ b) × (s ≡ t)
cut_end c [] [] s t ha hb hs ht e = (refl, e)
cut_end c [] (d ∷ b) s t ha (h, hb) (inl x) ht e = cc
cut_end c [] (d ∷ b) s t ha (h, hb) (inr (u, x)) ht e = absurd (h cc)
cut_end c (d ∷ a) [] s t (h, ha) hb hs (inl x) e = cc
cut_end c (d ∷ a) [] s t (h, ha) hb hs (inr (u, x)) e = absurd (h cc)
cut_end c (d ∷ a) (d' ∷ b) s t (h, ha) (h', hb) hs ht e =
    let (p, q) = cut_end c a b s t ha hb hs ht cc in (cc, q)

pub append_cancel {ℓ} : {A : Type ℓ} (a : List A) {s t : List A} → a ++ s ≡ a ++ t → s ≡ t
append_cancel [] e = e
append_cancel (x ∷ a) e = append_cancel a cc
