-- ===== src/DeviceMqtt/Invariant.antt =====
-- What holds of a device after any calls of the application and any reports of the MQTT client.
use astarte_device_sdk_cpp.Base.{
  ◌≡◌, ◌∙◌, refl, subst, some, ok, err, ok-injective, Attempt, exception, returns,
  returns-injective, arith,
}
use astarte_device_sdk_cpp.Session.{
  Session, on_setup_success, on_setup_failure, on_connection_lost, on_disconnected,
}
use astarte_device_sdk_cpp.Config.{Config}
use astarte_device_sdk_cpp.Connection.Setup.{Created, World}
use astarte_device_sdk_cpp.DeviceMqtt.Accounts.{
  Passed, IsAccounted, subscription, announcement, empty_cache, given_up, farewell, individual,
  object, all-IsAccounted_later,
}
use astarte_device_sdk_cpp.DeviceMqtt.Keeping.{
  InOrder, session-IsSound, with_requests, add-InOrder, add_file-InOrder, individual-InOrder,
  object-InOrder, disconnect-InOrder, on_connected-All,
}
use astarte_device_sdk_cpp.DeviceMqtt.Lifecycle.{
  Surroundings, MqttDevice, self_of, device_of, create, connect, Step, Reaches, at_start, further,
}

setup_success_requests : (s s' : Session) → on_setup_success s ≡ some s' → s'.requests ≡ s.requests
unfolding on_setup_success
setup_success_requests s s' h = ground arith

setup_failure_requests : (s s' : Session) → on_setup_failure s ≡ some s' → s'.requests ≡ s.requests
unfolding on_setup_failure
setup_failure_requests s s' h = ground arith

Step-connection :
    (env : Surroundings) (m m' : MqttDevice env.urls) → Step env m m' → m'.connection ≡ m.connection
unfolding connect
Step-connection env m _ (Step.adds _ text) = refl
Step-connection env m _ (Step.adds_file _ path) = refl
Step-connection env m _ (Step.connects _ succeeds) = refl
Step-connection env m _ (Step.disconnects _) = refl
Step-connection env m _ (Step.sends_individual _ name path v t) = refl
Step-connection env m _ (Step.sends_object _ name path entries t) = refl
Step-connection env m _ (Step.connected_to_broker _) = refl
Step-connection env m _ (Step.connection_lost _) = refl
Step-connection env m _ (Step.setup_succeeds _ s e) = refl
Step-connection env m _ (Step.setup_fails _ s e) = refl
Step-connection env m _ (Step.disconnected _) = refl

module _ (env : Surroundings) where
  open env use {urls, lib, parse, builder, fs, client, waits}

  module _ (start : MqttDevice urls) where
    -- The connection is that of the start, the introspection is sound, and each request has its
    -- reason.
    abbrev pub IsOrderly : MqttDevice urls → Type 0
    IsOrderly m = (m.connection ≡ start.connection) × InOrder (IsAccounted env start m) m.device

    Step-InOrder :
        (m m' : MqttDevice urls)
        → Reaches env start m
        → Step env m m'
        → InOrder (IsAccounted env start m') m.device
        → InOrder (IsAccounted env start m') m'.device
    unfolding connect on_connection_lost on_disconnected
    Step-InOrder m _ before (Step.adds _ text) h = add-InOrder _ lib parse m.device text h
    Step-InOrder m _ before (Step.adds_file _ path) h =
        add_file-InOrder _ lib parse fs m.world.files m.device path h
    Step-InOrder m _ before (Step.connects _ succeeds) h = h
    Step-InOrder m m' before (Step.disconnects _) h =
        disconnect-InOrder _ client waits m.device h
          (farewell m (before, further m m' at_start (Step.disconnects m)))
    Step-InOrder m m' before (Step.sends_individual _ name path v t) h =
        let passed : Passed env start m' m =
          (before, further m m' at_start (Step.sends_individual m name path v t)) in
        individual-InOrder _ client waits builder (self_of m) m.device name path v t h
          (λ qos bytes. individual m name path v t qos bytes passed)
    Step-InOrder m m' before (Step.sends_object _ name path entries t) h =
        let passed : Passed env start m' m =
          (before, further m m' at_start (Step.sends_object m name path entries t)) in
        object-InOrder _ client waits builder (self_of m) m.device name path entries t h
          (λ qos bytes. object m name path entries t qos bytes passed)
    Step-InOrder m m' before (Step.connected_to_broker _) (w, h) =
        let passed : Passed env start m' m =
          (before, further m m' at_start (Step.connected_to_broker m)) in
        (
          session-IsSound m.device _ w,
          on_connected-All _ client (self_of m) m.device.introspection m.device.session h
              (subscription m passed) (announcement m passed) (empty_cache m passed)
              (λ e. given_up m e passed),
        )
    Step-InOrder m _ before (Step.connection_lost _) h = with_requests _ m.device _ refl h
    Step-InOrder m _ before (Step.setup_succeeds _ s e) h =
        with_requests _ m.device s (setup_success_requests m.device.session s e) h
    Step-InOrder m _ before (Step.setup_fails _ s e) h =
        with_requests _ m.device s (setup_failure_requests m.device.session s e) h
    Step-InOrder m _ before (Step.disconnected _) h = with_requests _ m.device _ refl h

    steps-IsOrderly : (m : MqttDevice urls) → Reaches env start m → IsOrderly start → IsOrderly m
    steps-IsOrderly _ Reaches.at_start h = h
    steps-IsOrderly _ (Reaches.further m m' before step) h =
        let (c, (w, accounted)) = steps-IsOrderly m before h in
        (
          Step-connection env m m' step ∙ c,
          Step-InOrder m m' before step
              (w, all-IsAccounted_later env start m m' m.device.session.requests step accounted),
        )

  device_of_ok :
      (created : World × Attempt (Created urls)) (m : MqttDevice urls)
      → (device_of created).1 ≡ returns (ok m)
      → IsOrderly m m
  device_of_ok (world, exception) m h = absurd cc
  device_of_ok (world, returns (err e)) m h = absurd cc
  device_of_ok (world, returns (ok connection)) m h =
      subst (λ m'. IsOrderly m' m') (ok-injective (returns-injective h))
        (refl, (record { kept = record { ordered = tt; named = tt }; formed = tt }, tt))

  pub reached-IsOrderly :
      (cfg : Config) (world : World) (start m : MqttDevice urls)
      → (create env cfg world).1 ≡ returns (ok start)
      → Reaches env start m
      → IsOrderly start m
  unfolding create
  reached-IsOrderly cfg world start m h reaches =
      steps-IsOrderly start m reaches (device_of_ok _ start h)
