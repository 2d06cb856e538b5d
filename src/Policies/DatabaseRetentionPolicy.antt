-- ===== src/Policies/DatabaseRetentionPolicy.antt =====
-- The class `DatabaseRetentionPolicy`.
use astarte_device_sdk_cpp.Base.{
  ◌≡◌, ◌↔◌, Text, codes, text_eq, text_eq_iff, if◌then◌else◌, Result, ok, err, Error, arith,
}

pub data DatabaseRetentionPolicy : Type 0 where
  no_ttl use_ttl : DatabaseRetentionPolicy

pub to_string : DatabaseRetentionPolicy → Text
to_string no_ttl = codes "no_ttl"
to_string use_ttl = codes "use_ttl"

unfoldable pub try_from_str : Text → Result DatabaseRetentionPolicy
try_from_str str =
    if text_eq str (codes "no_ttl")
    then ok no_ttl
    else if text_eq str (codes "use_ttl")
    then ok use_ttl
    else err Error.invalid_database_retention_policy

-- `from_json` for a JSON string; what is no name becomes the default.
unfoldable pub from_text : Text → DatabaseRetentionPolicy
unfolding try_from_str
from_text str = elim (try_from_str str) [ ok value ↦ value | err e ↦ no_ttl ]

-- A text is read as a policy exactly when it is that one's name.
pub try_from_str_iff :
    (s : Text) (v : DatabaseRetentionPolicy) → (try_from_str s ≡ ok v) ↔ (s ≡ to_string v)
unfolding try_from_str to_string
try_from_str_iff s no_ttl =
    ground (arith, text_eq_iff s (codes "no_ttl"), text_eq_iff s (codes "use_ttl"))
try_from_str_iff s use_ttl =
    ground (arith, text_eq_iff s (codes "no_ttl"), text_eq_iff s (codes "use_ttl"))
