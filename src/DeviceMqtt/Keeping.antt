-- ===== src/DeviceMqtt/Keeping.antt =====
-- What the calls of a device keep of its introspection and of the requests it has made.
use astarte_device_sdk_cpp.Base.{
  ℕ, ◌≤◌, ◌≡◌, inl, inr, refl, sym, subst, Bool, true, false, not, Option, none, some, List, [],
  ◌∷◌, ◌++◌, Text, codes, All, All-append, length, Result, ok, err, Error, if◌then◌else◌,
}
use astarte_device_sdk_cpp.Base.Int.{ℤ}
use astarte_device_sdk_cpp.Data.{Doubles, Data}
use astarte_device_sdk_cpp.EndpointPath.{starts_with_byte}
use astarte_device_sdk_cpp.Interface.{Interface}
use astarte_device_sdk_cpp.Interface.Validation.{Conforms}
use astarte_device_sdk_cpp.Introspection.{Introspection, values}
use astarte_device_sdk_cpp.Json.{JsonLibrary}
use astarte_device_sdk_cpp.Serialize.{
  JsonBuilder, serialize_astarte_individual, serialize_astarte_object,
}
use astarte_device_sdk_cpp.Session.{
  Session, Client, Identity, Request, subscribe, publish, base_topic, subscription_topics, twos,
  introspection_payload, request, answered, and_then, give_up_on_error, setup_subscriptions,
  send_introspection, send_emptycache, perform_session_setup, on_connected,
}
use astarte_device_sdk_cpp.Session.Requests.{Outcome, and_then-keeps}
use astarte_device_sdk_cpp.Persistence.{FileSystem, Files}
use astarte_device_sdk_cpp.Connection.{Waits, data_topic}
use astarte_device_sdk_cpp.Connection
use astarte_device_sdk_cpp.Connection.Laws.{disconnect-requests}
use astarte_device_sdk_cpp.DeviceMqtt.{
  DeviceMqtt, is_connected, insert_read, interface_from_str, add_interface_from_str,
  add_interface_from_file, encode, send_individual, send_object, disconnect,
}
use astarte_device_sdk_cpp.DeviceMqtt.Interfaces.{
  IsSound, add_interface_from_file-cases, add_interface_from_str-IsSound,
}
use astarte_device_sdk_cpp.DeviceMqtt.Preparing.{IsPermitted}
use astarte_device_sdk_cpp.DeviceMqtt.Publishing.{send_individual-publishes, send_object-publishes}

-- What the calls of the client add to the requests, whatever is to hold of each.
module _ (P : Request → Type 0) where
  pub snoc-All : (xs : List Request) (r : Request) → All P xs → P r → All P (xs ++ r ∷ [])
  snoc-All xs r h p = All-append P xs (r ∷ []) h (p, tt)

  request-All :
      (client : Client) (s : Session) (r : Request)
      → All P s.requests
      → P r
      → All P (request client s r).0.requests
  unfolding request
  request-All client s r h p = from_answer (client s.requests r)
    where
      from_answer : (answer : Option ℕ) → All P (answered s r answer).0.requests
      from_answer none = snoc-All s.requests r h p
      from_answer (some token) = snoc-All s.requests r h p

  give_up_on_error-All :
      (m : Outcome)
      → All P m.0.requests
      → ((e : Error) → m.1 ≡ err e → P Request.disconnect)
      → All P (give_up_on_error m).requests
  give_up_on_error-All (s, ok _) h p = h
  give_up_on_error-All (s, err e) h p = snoc-All s.requests _ h (p e refl)

  pub disconnect-All :
      (client : Client) (waits : Waits) (s : Session)
      → All P s.requests
      → P Request.disconnect
      → All P (Connection.disconnect client waits s).0.requests
  disconnect-All client waits s h p =
      subst (All P) (sym (disconnect-requests client waits s)) (snoc-All s.requests _ h p)

  pub on_connected-All :
      (client : Client) (self : Identity) (introspection : Introspection) (s : Session)
      → All P s.requests
      → (let topics = subscription_topics self (values introspection) in
          P (subscribe topics (twos topics)))
      → P (publish (base_topic self) (introspection_payload (values introspection)) 2 false)
      → P (publish (base_topic self ++ codes "/control/emptyCache") (codes "1") 2 false)
      → ((e : Error)
          → (perform_session_setup client self introspection false s).1 ≡ err e
          → P Request.disconnect)
      → All P (on_connected client self introspection s).requests
  unfolding on_connected perform_session_setup setup_subscriptions send_introspection
      send_emptycache
  on_connected-All client self introspection s h sub announce empty gives_up =
      let holds : Session → Type 0 = λ s'. All P s'.requests in
      let empties : Session → Outcome = send_emptycache client self introspection in
      let announces : Session → Outcome = send_introspection client self introspection in
      let rest : Session → Outcome = λ s1. and_then (announces s1) empties in
      give_up_on_error-All (perform_session_setup client self introspection false s)
        (and_then-keeps holds (setup_subscriptions client self introspection s) rest
          (request-All client s _ h sub)
          (λ s1 h1.
            and_then-keeps holds (announces s1) empties (request-All client s1 _ h1 announce)
              (λ s2 h2. request-All client s2 _ h2 empty)))
        gives_up

pub session-IsSound :
    (device : DeviceMqtt) (s : Session) → IsSound device → IsSound (record device { session = s })
session-IsSound device s w = record { kept = w.kept; formed = w.formed }

module _ (P : Request → Type 0) where
  -- The introspection is sound, and something holds of each request.
  abbrev pub InOrder : DeviceMqtt → Type 0
  InOrder device = IsSound device × All P device.session.requests

  pub with_requests :
      (device : DeviceMqtt) (s : Session)
      → s.requests ≡ device.session.requests
      → InOrder device
      → InOrder (record device { session = s })
  with_requests device s e (w, h) = (session-IsSound device s w, subst (All P) (sym e) h)

  read-All :
      (device : DeviceMqtt) (read : Result Interface)
      → All P device.session.requests
      → All P (insert_read device read).0.session.requests
  unfolding insert_read
  read-All device (err e) h = h
  read-All device (ok i) h = h

  module _ (lib : JsonLibrary) (parse : Text → Option lib.Json) where
    pub add-InOrder :
        (device : DeviceMqtt) (text : Text)
        → InOrder device
        → InOrder (add_interface_from_str lib parse device text).0
    unfolding add_interface_from_str
    add-InOrder device text (w, h) = (
      add_interface_from_str-IsSound lib parse device text w,
      read-All device (interface_from_str lib parse text) h,
    )

    pub add_file-InOrder :
        (fs : FileSystem) (files : Files) (device : DeviceMqtt) (path : Text)
        → InOrder device
        → InOrder (add_interface_from_file lib parse fs files device path).0
    add_file-InOrder fs files device path h =
        elim (add_interface_from_file-cases lib parse fs files device path) [
          | inl same ↦ subst InOrder (sym same) h
          | inr (text, same) ↦ subst InOrder (sym same) (add-InOrder device text h)
        ]

  module _ (client : Client) (waits : Waits) where
    pub individual-InOrder :
        {d : Doubles} (builder : JsonBuilder d) (self : Identity) (device : DeviceMqtt)
        (name path : Text) (v : Data d.Double) (t : Option ℤ)
        → InOrder device
        → ((qos : ℕ) (bytes : Text)
            → IsPermitted (λ i. Conforms d i path v t) device name path qos
            → encode builder (serialize_astarte_individual builder builder.null (codes "v") v t)
              ≡ some bytes
            → qos ≤ 2
            → starts_with_byte b'/' path ≡ true
            → P (publish (data_topic self name path) bytes qos false))
        → InOrder (send_individual client waits self builder device name path v t).0
    individual-InOrder builder self device name path v t (w, h) may =
        elim (send_individual-publishes client waits self builder device name path v t) [
          | inl (same, _) ↦ subst InOrder (sym same) (w, h)
          | inr (qos, bytes, permitted, document, bounded, rooted, e) ↦ subst InOrder (sym e) (
            session-IsSound device _ w,
            snoc-All P device.session.requests _ h
                (may qos bytes permitted document bounded rooted),
          )
        ]

    pub object-InOrder :
        {d : Doubles} (builder : JsonBuilder d) (self : Identity) (device : DeviceMqtt)
        (name path : Text) (entries : List (Text × Data d.Double)) (t : Option ℤ)
        → InOrder device
        → ((qos : ℕ) (bytes : Text)
            → IsPermitted
                (λ i.
                  (length i.mappings ≡ length entries)
                  × All (λ entry. Conforms d i (path ++ b'/' ∷ entry.0) entry.1 t) entries)
                device
                name
                path
                qos
            → encode builder (serialize_astarte_object builder builder.null entries t) ≡ some bytes
            → qos ≤ 2
            → starts_with_byte b'/' path ≡ true
            → P (publish (data_topic self name path) bytes qos false))
        → InOrder (send_object client waits self builder device name path entries t).0
    object-InOrder builder self device name path entries t (w, h) may =
        elim (send_object-publishes client waits self builder device name path entries t) [
          | inl (same, _) ↦ subst InOrder (sym same) (w, h)
          | inr (qos, bytes, permitted, document, bounded, rooted, e) ↦ subst InOrder (sym e) (
            session-IsSound device _ w,
            snoc-All P device.session.requests _ h
                (may qos bytes permitted document bounded rooted),
          )
        ]

    pub disconnect-InOrder :
        (device : DeviceMqtt)
        → InOrder device
        → (is_connected device ≡ true → P Request.disconnect)
        → InOrder (disconnect client waits device).0
    unfolding disconnect
    disconnect-InOrder device (w, h) may = if_connected (is_connected device) may
      where
        left : DeviceMqtt × Result (Unit {0})
        left =
            let (session, outcome) = Connection.disconnect client waits device.session in
            (record device { session = session }, outcome)

        if_connected :
            (on : Bool)
            → (on ≡ true → P Request.disconnect)
            → InOrder (if not on then (device, ok tt) else left).0
        if_connected false p = (w, h)
        if_connected true p =
            (session-IsSound device _ w, disconnect-All P client waits device.session h (p refl))
