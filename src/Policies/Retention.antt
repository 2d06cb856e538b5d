-- ===== src/Policies/Retention.antt =====
-- The class `Retention`.
use astarte_device_sdk_cpp.Base.{
  ◌≡◌, ◌↔◌, Text, codes, text_eq, text_eq_iff, if◌then◌else◌, Result, ok, err, Error, arith,
}

pub data Retention : Type 0 where
  discard volatile stored : Retention

pub to_string : Retention → Text
to_string discard = codes "discard"
to_string volatile = codes "volatile"
to_string stored = codes "stored"

unfoldable pub try_from_str : Text → Result Retention
try_from_str str =
    if text_eq str (codes "discard")
    then ok discard
    else if text_eq str (codes "volatile")
    then ok volatile
    else if text_eq str (codes "stored")
    then ok stored
    else err Error.invalid_retention

-- `from_json` for a JSON string; what is no name becomes the default.
unfoldable pub from_text : Text → Retention
unfolding try_from_str
from_text str = elim (try_from_str str) [ ok value ↦ value | err e ↦ discard ]

-- A text is read as a retention exactly when it is that one's name.
pub try_from_str_iff : (s : Text) (v : Retention) → (try_from_str s ≡ ok v) ↔ (s ≡ to_string v)
unfolding try_from_str to_string
try_from_str_iff s discard = ground (
  arith,
  text_eq_iff s (codes "discard"),
  text_eq_iff s (codes "volatile"),
  text_eq_iff s (codes "stored"),
)
try_from_str_iff s volatile = ground (
  arith,
  text_eq_iff s (codes "discard"),
  text_eq_iff s (codes "volatile"),
  text_eq_iff s (codes "stored"),
)
try_from_str_iff s stored = ground (
  arith,
  text_eq_iff s (codes "discard"),
  text_eq_iff s (codes "volatile"),
  text_eq_iff s (codes "stored"),
)
