-- ===== src/Backoff.antt =====
-- private/exponential_backoff.hpp: the class `ExponentialBackoff`. Counts of milliseconds are
-- 64-bit signed integers; `create` admits positive coefficients only, so the fields are natural
-- numbers. A draw of the random jitter is a parameter: the value that `std::uniform_int_distribution`
-- returns for the bounds that it is given.
pub mod Delays
pub mod Tests
use astarte_device_sdk_cpp.Base.{
  ℕ, zero, suc, ◌+◌, ◌-◌, ◌*◌, ◌/◌, ◌^◌, ltb, leb, ◌==◌, if◌then◌else◌, Bool, true, false, ◌||◌,
  Result, ok, err, Error,
}
use astarte_device_sdk_cpp.Base.Int.{ℤ, pos, negsuc, ◌+ℤ◌, ◌-ℤ◌}

-- `std::chrono::milliseconds::max().count()`.
abbrev pub max_milliseconds : ℕ
max_milliseconds = 9223372036854775807

pub record Backoff : Type 0 where
  pub mul_coeff : ℕ
  pub cutoff_coeff : ℕ
  pub prev_delay : ℕ

unfoldable pub create : ℤ → ℤ → Result Backoff
create (negsuc m) cutoff_coeff = err Error.invalid_input
create (pos m) (negsuc c) = err Error.invalid_input
create (pos m) (pos c) =
    if leb m 0 || leb c 0
    then err Error.invalid_input
    else if ltb c m
    then err Error.invalid_input
    else ok (record { mul_coeff = m; cutoff_coeff = c; prev_delay = 0 })

-- The delay of this call before the cut-off.
unfoldable pub raw_delay : Backoff → ℕ
raw_delay b =
    let max_allowed_final_delay = max_milliseconds - b.mul_coeff in
    if b.prev_delay == 0
    then b.mul_coeff
    else if leb b.prev_delay (max_allowed_final_delay / 2)
    then 2 * b.prev_delay
    else max_allowed_final_delay

unfoldable pub bounded_delay : Backoff → ℕ
bounded_delay b = if ltb b.cutoff_coeff (raw_delay b) then b.cutoff_coeff else raw_delay b

unfoldable pub jitter_minimum : Backoff → ℤ
jitter_minimum b = if ltb (bounded_delay b) b.mul_coeff then pos 0 else pos 0 -ℤ pos b.mul_coeff

unfoldable pub jitter_maximum : Backoff → ℤ
jitter_maximum b =
    if ltb (max_milliseconds - b.mul_coeff) (bounded_delay b)
    then pos (max_milliseconds - bounded_delay b)
    else pos b.mul_coeff

unfoldable pub get_next_delay : (ℤ → ℤ → ℤ) → Backoff → Backoff × ℤ
get_next_delay dist b = (
  record b { prev_delay = bounded_delay b },
  pos (bounded_delay b) +ℤ dist (jitter_minimum b) (jitter_maximum b),
)

unfoldable pub reset : Backoff → Backoff
reset b = record b { prev_delay = 0 }
