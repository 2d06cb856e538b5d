-- ===== src/GrpcConverter/Timestamps.antt =====
-- The seconds and nanoseconds of a time point.
use astarte_device_sdk_cpp.Base.{ℕ, ◌≡◌, arith}
use astarte_device_sdk_cpp.Base.Int.{ℤ, pos, negsuc, ◌+ℤ◌, ◌-ℤ◌, ◌≤ℤ◌, int_laws, eq_of_parts}
use astarte_device_sdk_cpp.GrpcConverter.{
  whole_seconds, in_nanoseconds, to_timestamp, from_timestamp,
}

-- A time point is read back from its timestamp, before the epoch too.
pub from_timestamp-to_timestamp : (t : ℤ) → from_timestamp (to_timestamp t) ≡ t
unfolding from_timestamp to_timestamp
from_timestamp-to_timestamp t =
    eq_of_parts (in_nanoseconds (whole_seconds t) +ℤ (t -ℤ in_nanoseconds (whole_seconds t))) t
      (omega int_laws)

-- The nanoseconds are less than a second and have the sign of the time point: at least 0 from the
-- epoch on, and at most 0 before it.
pub to_timestamp-nanos :
    (n : ℕ)
    → (pos 0 ≤ℤ (to_timestamp (pos n)).nanos)
      × ((to_timestamp (pos n)).nanos ≤ℤ pos 999999999)
      × ((to_timestamp (negsuc n)).nanos ≤ℤ pos 0)
      × (negsuc 999999998 ≤ℤ (to_timestamp (negsuc n)).nanos)
unfolding to_timestamp whole_seconds in_nanoseconds ◌-ℤ◌
to_timestamp-nanos n = ground arith
