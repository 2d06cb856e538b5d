-- ===== src/Backoff/Delays.antt =====
-- Bounds of the delays, and their closed form.
use astarte_device_sdk_cpp.Base.{ℕ, zero, suc, ◌+◌, ◌*◌, ◌^◌, ◌≤◌, ◌<◌, ◌≡◌, ◌↔◌, refl, ok, arith}
use astarte_device_sdk_cpp.Base.Int.{ℤ, pos, negsuc, ◌+ℤ◌, ◌-ℤ◌, ◌≤ℤ◌, int_laws}
use astarte_device_sdk_cpp.Backoff.{
  Backoff, create, raw_delay, bounded_delay, jitter_minimum, jitter_maximum, get_next_delay, reset,
  max_milliseconds,
}
use native.Mathlib.Nat.{pow-suc}
use Prim.Native.Nat.{min}

pub record IsValid (b : Backoff) : Type 0 where
  pub positive : 0 < b.mul_coeff
  pub ordered : b.mul_coeff ≤ b.cutoff_coeff
  pub representable : b.cutoff_coeff ≤ max_milliseconds
  pub cut : b.prev_delay ≤ b.cutoff_coeff

-- `create` succeeds exactly when both coefficients are positive and the multiplier is not above
-- the cut-off, and then holds them with no delay so far.
pub create_iff :
    (mul cutoff : ℤ) (b : Backoff)
    → (create mul cutoff ≡ ok b) ↔ (
        (mul ≡ pos b.mul_coeff)
        × (cutoff ≡ pos b.cutoff_coeff)
        × (b.prev_delay ≡ 0)
        × (0 < b.mul_coeff)
        × (b.mul_coeff ≤ b.cutoff_coeff))
unfolding create
create_iff (negsuc m) cutoff b = ground arith
create_iff (pos m) (negsuc c) b = ground arith
create_iff (pos m) (pos c) b = ground arith

-- A source of jitter that stays within the bounds it is given.
abbrev pub IsDraw : (ℤ → ℤ → ℤ) → Type 0
IsDraw dist = (lo hi : ℤ) → lo ≤ℤ hi → (lo ≤ℤ dist lo hi) × (dist lo hi ≤ℤ hi)

raw_delay-le : (b : Backoff) → IsValid b → raw_delay b ≤ max_milliseconds
unfolding raw_delay
raw_delay-le b v = ground arith

bounded_delay-le : (b : Backoff) → bounded_delay b ≤ b.cutoff_coeff
unfolding bounded_delay
bounded_delay-le b = ground arith

-- The bounds of the jitter are in order, as the distribution requires.
jitter_bounds : (b : Backoff) → IsValid b → jitter_minimum b ≤ℤ jitter_maximum b
unfolding jitter_minimum jitter_maximum ◌-ℤ◌
jitter_bounds b v = ground (arith, bounded_delay-le b)

jitter_minimum-bounds :
    (b : Backoff)
    → (pos 0 ≤ℤ pos (bounded_delay b) +ℤ jitter_minimum b)
      × (pos (bounded_delay b) ≤ℤ pos (bounded_delay b) +ℤ jitter_minimum b +ℤ pos b.mul_coeff)
unfolding jitter_minimum ◌-ℤ◌ ◌+ℤ◌
jitter_minimum-bounds b = ground arith

jitter_maximum-bounds :
    (b : Backoff)
    → IsValid b
    → (pos (bounded_delay b) +ℤ jitter_maximum b ≤ℤ pos max_milliseconds)
      × (jitter_maximum b ≤ℤ pos b.mul_coeff)
unfolding jitter_maximum ◌+ℤ◌
jitter_maximum-bounds b v = ground (arith, bounded_delay-le b)

-- Each delay is a number of milliseconds from 0 to the greatest representable one, and no further
-- than the multiplier from the delay without jitter, which the cut-off bounds.
pub get_next_delay_bounds :
    (dist : ℤ → ℤ → ℤ) (b : Backoff)
    → IsDraw dist
    → IsValid b
    → let (b', delay) = get_next_delay dist b in
      (pos 0 ≤ℤ delay)
      × (delay ≤ℤ pos max_milliseconds)
      × (delay ≤ℤ pos (b'.prev_delay + b.mul_coeff))
      × (pos b'.prev_delay ≤ℤ delay +ℤ pos b.mul_coeff)
      × (b'.prev_delay ≤ b.cutoff_coeff)
unfolding get_next_delay
get_next_delay_bounds dist b draws v =
    let (low, high) = draws (jitter_minimum b) (jitter_maximum b) (jitter_bounds b v) in
    let (m, n) = jitter_minimum-bounds b in
    let (p, q) = jitter_maximum-bounds b v in omega (int_laws, bounded_delay-le b)

-- Every call keeps the generator valid.
pub get_next_delay-IsValid :
    (dist : ℤ → ℤ → ℤ) (b : Backoff) → IsValid b → IsValid (get_next_delay dist b).0
unfolding get_next_delay
get_next_delay-IsValid dist b v = ground (arith, bounded_delay-le b)

-- The generator after that many calls, whatever the jitter.
unfoldable pub after_calls : (ℤ → ℤ → ℤ) → ℕ → Backoff → Backoff
after_calls dist zero b = b
after_calls dist (suc n) b = (get_next_delay dist (after_calls dist n b)).0

coefficients :
    (dist : ℤ → ℤ → ℤ) (n : ℕ) (b : Backoff)
    → ((after_calls dist n b).mul_coeff ≡ b.mul_coeff)
      × ((after_calls dist n b).cutoff_coeff ≡ b.cutoff_coeff)
unfolding after_calls get_next_delay
coefficients dist zero b = (refl, refl)
coefficients dist (suc n) b = coefficients dist n b

-- One call, seen from the delay before it.
doubling :
    (b : Backoff) (x : ℕ)
    → 0 < b.mul_coeff
    → b.mul_coeff ≤ b.cutoff_coeff
    → b.cutoff_coeff + b.mul_coeff ≤ max_milliseconds
    → b.mul_coeff ≤ x
    → b.prev_delay ≡ min x b.cutoff_coeff
    → bounded_delay b ≡ min (2 * x) b.cutoff_coeff
unfolding bounded_delay raw_delay
doubling b x p q r s e = ground arith

doubled_power : (m n : ℕ) → m * 2 ^ suc n ≡ 2 * (m * 2 ^ n)
doubled_power m n = rw (pow-suc 2 n) (omega arith)

power_pos : (m n : ℕ) → m ≤ m * 2 ^ n
power_pos m zero = omega arith
power_pos m (suc n) = omega (arith, doubled_power m n, power_pos m n)

first_delay :
    (b : Backoff)
    → 0 < b.mul_coeff
    → b.mul_coeff ≤ b.cutoff_coeff
    → bounded_delay (reset b) ≡ min (b.mul_coeff * 1) b.cutoff_coeff
unfolding bounded_delay raw_delay reset
first_delay b p q = ground arith

-- From a reset on, the delay of each call before jitter is the multiplier times a power of two,
-- up to the cut-off, provided that the cut-off and the multiplier add up to a representable number.
pub after_calls-reset :
    (dist : ℤ → ℤ → ℤ) (n : ℕ) (b : Backoff)
    → 0 < b.mul_coeff
    → b.mul_coeff ≤ b.cutoff_coeff
    → b.cutoff_coeff + b.mul_coeff ≤ max_milliseconds
    → (after_calls dist (suc n) (reset b)).prev_delay ≡ min (b.mul_coeff * 2 ^ n) b.cutoff_coeff
unfolding after_calls get_next_delay reset
after_calls-reset dist zero b p q r = first_delay b p q
after_calls-reset dist (suc n) b p q r =
    let (m, c) = coefficients dist (suc n) (reset b) in
    let ih = after_calls-reset dist n b p q r in
    let step =
      doubling (after_calls dist (suc n) (reset b)) (b.mul_coeff * 2 ^ n) (omega arith)
        (omega arith) (omega arith) (omega (arith, power_pos b.mul_coeff n)) (omega arith) in
    omega (arith, doubled_power b.mul_coeff n)
