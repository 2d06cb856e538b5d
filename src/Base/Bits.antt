-- ===== src/Base/Bits.antt =====
-- Shifts, masks and the combination of numbers that have no digit in common.
use Prim.Native.Nat.{
  ℕ, zero, suc, ◌+◌, ◌*◌, ◌/◌, ◌%◌, ◌^◌, ◌≤◌, ◌<◌, min, max, digits, bit_and, bit_or,
  bit_and-bitwise, bit_or-bitwise,
}
use mathlib.Core.Path.{◌≡◌, refl, sym, ap, ◌∙◌}
use native.Mathlib.Nat.{pow-suc, mul_assoc}
use native.Mathlib.Omega.{arith}

-- More digits to go than a number has make no difference.
digits_enough :
    (z : ℕ → ℕ) (f : ℕ → ℕ → ℕ) (n m a b : ℕ) → a ≤ n → a ≤ m → digits z f n a b ≡ digits z f m a b
digits_enough z f zero zero zero b h k = refl
digits_enough z f zero (suc m) zero b h k = refl
digits_enough z f (suc n) zero zero b h k = refl
digits_enough z f (suc n) (suc m) zero b h k = refl
digits_enough z f zero m (suc a) b h k = absurd (omega arith)
digits_enough z f (suc n) zero (suc a) b h k = absurd (omega arith)
digits_enough z f (suc n) (suc m) (suc a) b h k =
    omega (arith, digits_enough z f n m (suc a / 2) (b / 2) (omega arith) (omega arith))

-- The lowest digit apart.
and_lowest : (a b : ℕ) → bit_and a b ≡ bit_and (a / 2) (b / 2) * 2 + min (a % 2) (b % 2)
and_lowest zero b = omega (arith, bit_and-bitwise 0 b, bit_and-bitwise 0 (b / 2))
and_lowest (suc a) b = omega (
  arith,
  bit_and-bitwise (suc a) b,
  bit_and-bitwise (suc a / 2) (b / 2),
  digits_enough (λ b. zero) min a (suc a / 2) (suc a / 2) (b / 2) (omega arith) (omega arith),
)

or_lowest : (a b : ℕ) → bit_or a b ≡ bit_or (a / 2) (b / 2) * 2 + max (a % 2) (b % 2)
or_lowest zero b = omega (arith, bit_or-bitwise 0 b, bit_or-bitwise 0 (b / 2))
or_lowest (suc a) b = omega (
  arith,
  bit_or-bitwise (suc a) b,
  bit_or-bitwise (suc a / 2) (b / 2),
  digits_enough (λ b. b) max a (suc a / 2) (suc a / 2) (b / 2) (omega arith) (omega arith),
)

and_nothing : (n a : ℕ) → a ≤ n → bit_and a 0 ≡ 0
and_nothing n zero h = omega (arith, bit_and-bitwise 0 0)
and_nothing zero (suc a) h = absurd (omega arith)
and_nothing (suc n) (suc a) h =
    omega (arith, and_lowest (suc a) 0, and_nothing n (suc a / 2) (omega arith))

or_nothing : (n a : ℕ) → a ≤ n → bit_or a 0 ≡ a
or_nothing n zero h = omega (arith, bit_or-bitwise 0 0)
or_nothing zero (suc a) h = absurd (omega arith)
or_nothing (suc n) (suc a) h =
    omega (arith, or_lowest (suc a) 0, or_nothing n (suc a / 2) (omega arith))

and_seven : (a : ℕ) → bit_and a 7 ≡ a % 8
and_seven a = omega (
  arith,
  and_lowest a 7,
  and_lowest (a / 2) 3,
  and_lowest (a / 2 / 2) 1,
  and_nothing (a / 2 / 2 / 2) (a / 2 / 2 / 2) (omega arith),
)

-- A mask of six ones.
pub and_63 : (a : ℕ) → bit_and a 63 ≡ a % 64
and_63 a = omega (
  arith,
  and_lowest a 63,
  and_lowest (a / 2) 31,
  and_lowest (a / 2 / 2) 15,
  and_seven (a / 2 / 2 / 2),
)

or_doubled : (p y : ℕ) → bit_or (p * 2) y ≡ bit_or p (y / 2) * 2 + y % 2
or_doubled p y = omega (arith, or_lowest (p * 2) y, ap (λ q. bit_or q (y / 2)) (half p))
  where
    half : (p : ℕ) → p * 2 / 2 ≡ p
    half p = omega arith

-- A number that is shifted past another.
pub or_shifted : (k x y : ℕ) → y < 2 ^ k → bit_or (x * 2 ^ k) y ≡ x * 2 ^ k + y
or_shifted zero x y h =
    omega
      (arith, or_nothing (x * 1) (x * 1) (omega arith), ap (λ z. bit_or (x * 1) z) (none_left y h))
  where
    none_left : (y : ℕ) → y < 1 → y ≡ 0
    none_left y h = omega arith
or_shifted (suc k) x y h =
    let e = ap (λ p. x * p) (pow-suc 2 k) ∙ sym (mul_assoc x (2 ^ k) 2) in
    rw e (
      omega (
        arith,
        pow-suc 2 k,
        or_doubled (x * 2 ^ k) y,
        or_shifted k x (y / 2) (omega (arith, pow-suc 2 k)),
      ))
