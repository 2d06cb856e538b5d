-- ===== src/Backoff/Tests.antt =====
-- A generator of delays from one to eight seconds.
use astarte_device_sdk_cpp.Base.{◌+◌, ◌≤◌, arith}
use astarte_device_sdk_cpp.Base.Int.{ℤ, pos, ◌≤ℤ◌, ◌+ℤ◌}
use astarte_device_sdk_cpp.Backoff.{Backoff, get_next_delay, max_milliseconds}
use astarte_device_sdk_cpp.Backoff.Delays.{IsValid, IsDraw, get_next_delay_bounds}

abbrev seconds : Backoff
seconds = record { mul_coeff = 1000; cutoff_coeff = 8000; prev_delay = 2000 }

abbrev lowest : ℤ → ℤ → ℤ
lowest lo hi = lo

seconds-IsValid : IsValid seconds
seconds-IsValid = record {
  positive = omega arith;
  ordered = omega arith;
  representable = omega arith;
  cut = omega arith;
}

lowest-IsDraw : IsDraw lowest
lowest-IsDraw lo hi h = (omega arith, h)

get_next_delay_bounds_example :
    let (b, delay) = get_next_delay lowest seconds in
    (pos 0 ≤ℤ delay)
    × (delay ≤ℤ pos max_milliseconds)
    × (delay ≤ℤ pos (b.prev_delay + 1000))
    × (pos b.prev_delay ≤ℤ delay +ℤ pos 1000)
    × (b.prev_delay ≤ 8000)
get_next_delay_bounds_example = get_next_delay_bounds lowest seconds lowest-IsDraw seconds-IsValid
