-- ===== src/DeviceMqtt/Ordering.antt =====
-- What comes first in the life of a device.
use astarte_device_sdk_cpp.Base.{
  ◌≡◌, ◌⊎◌, inl, inr, refl, sym, subst, Bool, true, false, not, if◌then◌else◌, Option, Text, Result,
  Attempt, exception, returns, returns-injective, ok, err, ok-injective,
}
use astarte_device_sdk_cpp.Json.{JsonLibrary}
use astarte_device_sdk_cpp.Interface.{Interface}
use astarte_device_sdk_cpp.Session.{Client, Identity, Request}
use astarte_device_sdk_cpp.Persistence.{FileSystem, Files}
use astarte_device_sdk_cpp.Config.{Config}
use astarte_device_sdk_cpp.Connection.{Waits}
use astarte_device_sdk_cpp.Connection
use astarte_device_sdk_cpp.Connection.Setup.{Created, World}
use astarte_device_sdk_cpp.DeviceMqtt.{
  DeviceMqtt, is_connected, insert_read, interface_from_str, add_interface_from_str,
  add_interface_from_file, disconnect,
}
use astarte_device_sdk_cpp.DeviceMqtt.Interfaces.{add_interface_from_file-cases}
use astarte_device_sdk_cpp.DeviceMqtt.Publishing.{
  IsRefusal, IsPublication, with_message, send_individual-publishes, send_object-publishes,
}
use astarte_device_sdk_cpp.Session.First.{
  HasSubscribed, SubscribesFirst, asked_more, on_connected-HasSubscribed,
  on_setup_success-SubscribesFirst, on_setup_failure-SubscribesFirst,
  on_connection_lost-SubscribesFirst, on_disconnected-SubscribesFirst,
}
use astarte_device_sdk_cpp.Connection.Laws.{disconnect-requests}
use astarte_device_sdk_cpp.DeviceMqtt.Lifecycle.{
  Surroundings, MqttDevice, self_of, device_of, create, connect, Step, Reaches,
}

insert_read-session :
    (device : DeviceMqtt) (read : Result Interface)
    → (insert_read device read).0.session ≡ device.session
unfolding insert_read
insert_read-session device (err e) = refl
insert_read-session device (ok i) = refl

read-SubscribesFirst :
    (device : DeviceMqtt) (read : Result Interface)
    → SubscribesFirst device.session
    → SubscribesFirst (insert_read device read).0.session
read-SubscribesFirst device read h = subst SubscribesFirst (sym (insert_read-session device read)) h

module _ (lib : JsonLibrary) (parse : Text → Option lib.Json) where
  add-SubscribesFirst :
      (device : DeviceMqtt) (text : Text)
      → SubscribesFirst device.session
      → SubscribesFirst (add_interface_from_str lib parse device text).0.session
  unfolding add_interface_from_str
  add-SubscribesFirst device text h =
      read-SubscribesFirst device (interface_from_str lib parse text) h

  add_file-SubscribesFirst :
      (fs : FileSystem) (files : Files) (device : DeviceMqtt) (path : Text)
      → SubscribesFirst device.session
      → SubscribesFirst (add_interface_from_file lib parse fs files device path).0.session
  add_file-SubscribesFirst fs files device path h =
      elim (add_interface_from_file-cases lib parse fs files device path) [
        | inl same ↦ subst (λ d. SubscribesFirst d.session) (sym same) h
        | inr (text, same) ↦
            subst (λ d. SubscribesFirst d.session) (sym same) (add-SubscribesFirst device text h)
      ]

-- A device that counts as connected has subscribed.
connected-HasSubscribed :
    (device : DeviceMqtt)
    → is_connected device ≡ true
    → SubscribesFirst device.session
    → HasSubscribed device.session
connected-HasSubscribed device on (inl fresh) = let off = fresh.disconnected in absurd cc
connected-HasSubscribed device on (inr h) = h

published-SubscribesFirst :
    (Unencodable : Type 0) (Fits : Interface → Type 0) (IsDocument : Text → Type 0)
    (self : Identity) (device : DeviceMqtt) (name path : Text)
    (sent : DeviceMqtt × Attempt (Unit {0}))
    → IsRefusal Unencodable device sent ⊎ IsPublication Fits IsDocument self device name path sent.0
    → SubscribesFirst device.session
    → SubscribesFirst sent.0.session
published-SubscribesFirst Unencodable Fits IsDocument self device name path sent (inl (same, _)) h =
    subst (λ d. SubscribesFirst d.session) (sym same) h
published-SubscribesFirst Unencodable Fits IsDocument self device name path sent
      (inr (qos, bytes, permitted, document, bounded, rooted, e)) h =
    subst (λ d. SubscribesFirst d.session) (sym e)
      (inr (
        asked_more device.session (with_message self device name path qos bytes).session _ refl
          (connected-HasSubscribed device permitted.connected h)))

module _ (client : Client) (waits : Waits) where
  disconnect-SubscribesFirst :
      (device : DeviceMqtt)
      → SubscribesFirst device.session
      → SubscribesFirst (disconnect client waits device).0.session
  unfolding disconnect
  disconnect-SubscribesFirst device h = if_connected (is_connected device) refl
    where
      left : DeviceMqtt × Result (Unit {0})
      left =
          let (session, outcome) = Connection.disconnect client waits device.session in
          (record device { session = session }, outcome)

      if_connected :
          (on : Bool)
          → is_connected device ≡ on
          → SubscribesFirst (if not on then (device, ok tt) else left).0.session
      if_connected false e = h
      if_connected true e = inr (
          asked_more device.session left.0.session Request.disconnect
            (disconnect-requests client waits device.session) (connected-HasSubscribed device e h))

module _ (env : Surroundings) where
  open env use {urls, lib, parse, builder, fs, client, waits}

  Step-SubscribesFirst :
      (m m' : MqttDevice urls)
      → Step env m m'
      → SubscribesFirst m.device.session
      → SubscribesFirst m'.device.session
  unfolding connect
  Step-SubscribesFirst m _ (Step.adds _ text) h = add-SubscribesFirst lib parse m.device text h
  Step-SubscribesFirst m _ (Step.adds_file _ path) h =
      add_file-SubscribesFirst lib parse fs m.world.files m.device path h
  Step-SubscribesFirst m _ (Step.connects _ succeeds) h = h
  Step-SubscribesFirst m _ (Step.disconnects _) h =
      disconnect-SubscribesFirst client waits m.device h
  Step-SubscribesFirst m _ (Step.sends_individual _ name path v t) h =
      published-SubscribesFirst _ _ _ (self_of m) m.device name path _
        (send_individual-publishes client waits (self_of m) builder m.device name path v t) h
  Step-SubscribesFirst m _ (Step.sends_object _ name path entries t) h =
      published-SubscribesFirst _ _ _ (self_of m) m.device name path _
        (send_object-publishes client waits (self_of m) builder m.device name path entries t) h
  Step-SubscribesFirst m _ (Step.connected_to_broker _) h =
      inr (on_connected-HasSubscribed client (self_of m) m.device.introspection m.device.session h)
  Step-SubscribesFirst m _ (Step.connection_lost _) h =
      on_connection_lost-SubscribesFirst m.device.session h
  Step-SubscribesFirst m _ (Step.setup_succeeds _ s e) h =
      on_setup_success-SubscribesFirst m.device.session s e h
  Step-SubscribesFirst m _ (Step.setup_fails _ s e) h =
      on_setup_failure-SubscribesFirst m.device.session s e h
  Step-SubscribesFirst m _ (Step.disconnected _) h =
      on_disconnected-SubscribesFirst m.device.session h

  steps-SubscribesFirst :
      (start m : MqttDevice urls)
      → Reaches env start m
      → SubscribesFirst start.device.session
      → SubscribesFirst m.device.session
  steps-SubscribesFirst start _ Reaches.at_start h = h
  steps-SubscribesFirst start _ (Reaches.further m m' before step) h =
      Step-SubscribesFirst m m' step (steps-SubscribesFirst start m before h)

  created-SubscribesFirst :
      (created : World × Attempt (Created urls)) (m : MqttDevice urls)
      → (device_of created).1 ≡ returns (ok m)
      → SubscribesFirst m.device.session
  created-SubscribesFirst (world, exception) m h = absurd cc
  created-SubscribesFirst (world, returns (err e)) m h = absurd cc
  created-SubscribesFirst (world, returns (ok connection)) m h =
      subst (λ m. SubscribesFirst m.device.session) (ok-injective (returns-injective h))
        (inl (record { disconnected = refl; no_tokens = refl; no_requests = refl }))

  -- A device subscribes before all else: after any calls of the application and any reports of the
  -- client, a device that was created has either asked nothing of the client, and then it does not count
  -- as connected and waits for no report, or the first of all its requests is a subscription.
  pub reached-SubscribesFirst :
      (cfg : Config) (world : World) (start m : MqttDevice urls)
      → (create env cfg world).1 ≡ returns (ok start)
      → Reaches env start m
      → SubscribesFirst m.device.session
  unfolding create
  reached-SubscribesFirst cfg world start m h reaches =
      steps-SubscribesFirst start m reaches (created-SubscribesFirst _ start h)
