-- ===== src/Policies/Reliability.antt =====
-- The class `Reliability`, with its QoS level.
use astarte_device_sdk_cpp.Base.{
  ℕ, ◌≤◌, ◌≡◌, ◌↔◌, Text, codes, text_eq, text_eq_iff, if◌then◌else◌, Result, ok, err, Error, arith,
}

pub data Reliability : Type 0 where
  unreliable guaranteed unique : Reliability

pub to_string : Reliability → Text
to_string unreliable = codes "unreliable"
to_string guaranteed = codes "guaranteed"
to_string unique = codes "unique"

unfoldable pub try_from_str : Text → Result Reliability
try_from_str str =
    if text_eq str (codes "unreliable")
    then ok unreliable
    else if text_eq str (codes "guaranteed")
    then ok guaranteed
    else if text_eq str (codes "unique")
    then ok unique
    else err Error.invalid_reliability

-- `from_json` for a JSON string; what is no name becomes the default.
unfoldable pub from_text : Text → Reliability
unfolding try_from_str
from_text str = elim (try_from_str str) [ ok value ↦ value | err e ↦ unreliable ]

-- The MQTT quality of service.
unfoldable pub get_qos : Reliability → ℕ
get_qos unreliable = 0
get_qos guaranteed = 1
get_qos unique = 2

pub get_qos-le : (r : Reliability) → get_qos r ≤ 2
unfolding get_qos
get_qos-le unreliable = omega arith
get_qos-le _ = omega arith

-- A text is read as a reliability exactly when it is that one's name.
pub reliability_from_str_iff :
    (s : Text) (v : Reliability) → (try_from_str s ≡ ok v) ↔ (s ≡ to_string v)
unfolding try_from_str to_string
reliability_from_str_iff s unreliable = ground (
  arith,
  text_eq_iff s (codes "unreliable"),
  text_eq_iff s (codes "guaranteed"),
  text_eq_iff s (codes "unique"),
)
reliability_from_str_iff s guaranteed = ground (
  arith,
  text_eq_iff s (codes "unreliable"),
  text_eq_iff s (codes "guaranteed"),
  text_eq_iff s (codes "unique"),
)
reliability_from_str_iff s unique = ground (
  arith,
  text_eq_iff s (codes "unreliable"),
  text_eq_iff s (codes "guaranteed"),
  text_eq_iff s (codes "unique"),
)
