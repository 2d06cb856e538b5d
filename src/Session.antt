-- ===== src/Session.antt =====
-- src/mqtt/connection/callbacks.cpp and listener.cpp: the session that a device sets up with
-- Astarte after each connection, and the flag that says that the device is connected.
-- The MQTT client is a parameter: what it answers to a request, given the requests before it, is a
-- token, or nothing where the call throws. It calls the handlers one at a time. A token stands for
-- the request whose outcome the client reports later.
pub mod Requests
pub mod Handshake
pub mod First
pub mod Topics
pub mod Payload
pub mod Tests
use astarte_device_sdk_cpp.Base.{
  ℕ, zero, suc, ◌+◌, Bool, true, false, Option, none, some, List, [], ◌∷◌, ◌++◌, Text, codes,
  is_empty, if◌then◌else◌, Result, ok, err, Error,
}
use astarte_device_sdk_cpp.Data.{Ownership, same_owner}
use astarte_device_sdk_cpp.Interface.{Interface}
use astarte_device_sdk_cpp.Introspection.{Introspection, values}
use astarte_device_sdk_cpp.Decimal.{to_decimal}

pub data Request : Type 0 where
  subscribe : (topics : List Text) (qoss : List ℕ) → Request
  publish : (topic payload : Text) (qos : ℕ) (retained : Bool) → Request
  disconnect : Request

-- The flag, the queue of session tokens (oldest first), and what was asked of the client (oldest
-- first).
pub record Session : Type 0 where
  pub connected : Bool
  pub session_setup_tokens : List ℕ
  pub requests : List Request

abbrev pub Client : Type 0
Client = List Request → Request → Option ℕ

-- "{realm}/{device_id}".
pub record Identity : Type 0 where
  pub realm : Text
  pub device_id : Text

abbrev pub base_topic : Identity → Text
base_topic self = self.realm ++ b'/' ∷ self.device_id

-- The loop of `setup_subscriptions` over the introspection.
unfoldable pub server_topics : Identity → List Interface → List Text
server_topics self [] = []
server_topics self (interface ∷ interfaces) =
    let rest = server_topics self interfaces in
    if same_owner interface.ownership Ownership.device
    then rest
    else (base_topic self ++ b'/' ∷ (interface.interface_name ++ codes "/#")) ∷ rest

unfoldable pub subscription_topics : Identity → List Interface → List Text
subscription_topics self interfaces =
    (base_topic self ++ codes "/control/consumer/properties") ∷ server_topics self interfaces

-- A quality of service of 2 for each topic.
unfoldable pub twos : List Text → List ℕ
twos [] = []
twos (topic ∷ topics) = 2 ∷ twos topics

-- "{name}:{major}:{minor};" for each interface.
unfoldable pub introspection_entries : List Interface → Text
introspection_entries [] = []
introspection_entries (interface ∷ interfaces) =
    interface.interface_name
    ++ (b':'
        ∷ (to_decimal interface.version_major
            ++ (b':'
                ∷ (to_decimal interface.version_minor
                    ++ (b';' ∷ introspection_entries interfaces)))))

-- `pop_back`, of a text that is not empty.
unfoldable pub pop_back : Text → Text
pop_back [] = []
pop_back (c ∷ []) = []
pop_back (c ∷ d ∷ s) = c ∷ pop_back (d ∷ s)

unfoldable pub introspection_payload : List Interface → Text
introspection_payload interfaces = pop_back (introspection_entries interfaces)

-- The token that the client answers with joins the queue; a call that throws is an error.
abbrev pub answered : Session → Request → Option ℕ → Session × Result (Unit {0})
answered s r none = (record s { requests = s.requests ++ r ∷ [] }, err Error.mqtt_connection_error)
answered s r (some token) = (
  record s {
    session_setup_tokens = s.session_setup_tokens ++ token ∷ [];
    requests = s.requests ++ r ∷ [];
  },
  ok tt,
)

-- One call of the client.
unfoldable pub request : Client → Session → Request → Session × Result (Unit {0})
request client s r = answered s r (client s.requests r)

-- The next step, unless the last one failed.
abbrev pub and_then :
    Session × Result (Unit {0})
    → (Session → Session × Result (Unit {0}))
    → Session × Result (Unit {0})
and_then (s, ok _) k = k s
and_then (s, err e) k = (s, err e)

-- A failed setup forgets its tokens and asks for a disconnection.
abbrev pub give_up_on_error : Session × Result (Unit {0}) → Session
give_up_on_error (s, ok _) = s
give_up_on_error (s, err e) = record s {
  session_setup_tokens = [];
  requests = s.requests ++ disconnect ∷ [];
}

module _ (client : Client) (self : Identity) (introspection : Introspection) where
  unfoldable pub setup_subscriptions : Session → Session × Result (Unit {0})
  setup_subscriptions s =
      let topics = subscription_topics self (values introspection) in
      request client s (subscribe topics (twos topics))

  unfoldable pub send_introspection : Session → Session × Result (Unit {0})
  send_introspection s =
      request client s
        (publish (base_topic self) (introspection_payload (values introspection)) 2 false)

  unfoldable pub send_emptycache : Session → Session × Result (Unit {0})
  send_emptycache s =
      request client s
        (publish (base_topic self ++ codes "/control/emptyCache") (codes "1") 2 false)

  unfoldable pub perform_session_setup : Bool → Session → Session × Result (Unit {0})
  perform_session_setup true s = (s, ok tt)
  perform_session_setup false s =
      and_then (setup_subscriptions s) (λ s1. and_then (send_introspection s1) send_emptycache)

  -- `Callback::connected`. What the client answers to the request to disconnect is not read.
  unfoldable pub on_connected : Session → Session
  on_connected s = give_up_on_error (perform_session_setup false s)

-- `Callback::connection_lost`.
unfoldable pub on_connection_lost : Session → Session
on_connection_lost s = record s { connected = false; session_setup_tokens = [] }

-- `SessionSetupListener::on_success`: `get` takes the oldest token, and blocks on an empty queue
-- (no result); the flag is raised when the queue is empty then.
unfoldable pub on_setup_success : Session → Option Session
on_setup_success s = elim s.session_setup_tokens [
  | [] ↦ none
  | token ∷ tokens ↦ some (
      if is_empty tokens
      then record s { connected = true; session_setup_tokens = tokens }
      else record s { session_setup_tokens = tokens })
]

-- `SessionSetupListener::on_failure` only logs.
unfoldable pub on_setup_failure : Session → Option Session
on_setup_failure s = some s

-- `DisconnectionListener::on_success`.
unfoldable pub on_disconnected : Session → Session
on_disconnected s = record s { connected = false }
