-- ===== src/Connection.antt =====
-- src/mqtt/connection/connection.cpp: what an established connection does for the device, on the
-- session that it shares with the callbacks. The client answers a publication with a token or
-- throws; whether the wait for a token ends without an exception is a parameter too.
pub mod Laws
pub mod Setup
pub mod Creation
pub mod Disposal
pub mod Tests
use astarte_device_sdk_cpp.Base.{
  ℕ, Bool, true, false, not, Option, none, some, List, [], ◌∷◌, ◌++◌, Text, ltb, if◌then◌else◌,
  Result, ok, err, Error,
}
use astarte_device_sdk_cpp.EndpointPath.{starts_with_byte}
use astarte_device_sdk_cpp.Session.{Session, Client, Identity, Request, publish, base_topic}

-- Whether `token->wait()` returns.
abbrev pub Waits : Type 0
Waits = ℕ → Bool

-- "{realm}/{device_id}/{interface_name}{path}".
unfoldable pub data_topic : Identity → Text → Text → Text
data_topic self interface_name path = base_topic self ++ b'/' ∷ (interface_name ++ path)

-- A request that is waited for: it succeeds if the client takes it and the wait returns.
unfoldable pub settles : Client → Waits → Session → Request → Bool
settles client waits s r = elim (client s.requests r) [ none ↦ false | some token ↦ waits token ]

module _ (client : Client) (waits : Waits) (self : Identity) where
  unfoldable pub send : Session → Text → Text → ℕ → Text → Session × Result (Unit {0})
  send s interface_name path qos data' =
      if not (starts_with_byte b'/' path)
      then (s, err Error.mqtt_error)
      else if ltb 2 qos
      then (s, err Error.mqtt_error)
      else let r = publish (data_topic self interface_name path) data' qos false in
        (
          record s { requests = s.requests ++ r ∷ [] },
          if settles client waits s r then ok tt else err Error.mqtt_error,
        )

-- The tokens are forgotten first; the flag is lowered if nothing throws.
unfoldable pub disconnect : Client → Waits → Session → Session × Result (Unit {0})
disconnect client waits s =
    let asked = record s {
      session_setup_tokens = [];
      requests = s.requests ++ Request.disconnect ∷ [];
    } in
    if settles client waits s Request.disconnect
    then (record asked { connected = false }, ok tt)
    else (asked, err Error.mqtt_connection_error)
