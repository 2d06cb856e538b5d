-- ===== src/GrpcDevice/Reconnection.antt =====
-- What follows when a stream ends with an error.
use astarte_device_sdk_cpp.Base.{
  ℕ, ◌≡◌, refl, sym, subst, ◌∙◌, Bool, true, false, some, List, [], ◌∷◌, Text, if◌then◌else◌,
  Result, ok, err, Error, arith,
}
use astarte_device_sdk_cpp.GrpcConverter.{AstarteDataClass}
use astarte_device_sdk_cpp.GrpcDevice.{
  loop_head, reading, finishing, Request, add_interfaces, remove_interfaces, detach, send,
  all_properties, interface_properties, one_property, Stub, DeviceGrpc, has_thread, ask, connect,
  poll_incoming, add_interface_from_str, remove_interface, disconnect, send_message, filter_of,
  initial_backoff, get_all_properties, get_properties, get_property,
}
use astarte_device_sdk_cpp.GrpcDevice.Thread.{
  Event, Answer, parse_message_hub_event, turn, turn_at, read_event, finish_stream,
}
use astarte_device_sdk_cpp.GrpcDevice.Runs.{
  Action, thread_turns, joins, connects, disconnects, polls, adds, removes, sends, asks_all,
  asks_interface, asks_one, act, run,
}
use astarte_device_sdk_cpp.GrpcDevice.Stuck.{
  IsStuck, attachments, attachments-append, IsOther, Stays, stays, turn-Stays, join-Stays, Keeps,
  Keeps-Stays,
}

-- A turn of the thread in which the stream of a connected device is lost.
pub data IsLost {D : Type 0} {grpc : AstarteDataClass D} (answer : Answer grpc)
    (device : DeviceGrpc grpc) : Type 0 where
  stream_error :
      device.connection_thread ≡ finishing
      → (code : ℕ) → answer.finish ≡ some code
      → device.stop_requested ≡ false
      → device.connected ≡ true
      → IsLost answer device
  bad_event :
      device.connection_thread ≡ reading
      → (event : Event grpc) → answer.read ≡ some event
      → (e : Error) → parse_message_hub_event event ≡ err e
      → device.connected ≡ true
      → IsLost answer device

module _ {D : Type 0} {grpc : AstarteDataClass D} (stub : Stub grpc)
    (names : Text → Text → Bool) where
  ask-Keeps :
      (r : Request grpc) (device : DeviceGrpc grpc) → IsOther r → Keeps device (ask stub r device).0
  unfolding ask
  ask-Keeps r device h = (refl, refl, attachments-append device.requests r h)

  disconnect-Keeps : (device : DeviceGrpc grpc) → Keeps device (disconnect stub device).0
  unfolding disconnect ask
  disconnect-Keeps device = ground (arith, attachments-append device.requests detach tt)

  act-Stays :
      (a : Action grpc) (device : DeviceGrpc grpc)
      → IsStuck device
      → Stays device (act stub names a device)
  unfolding act
  act-Stays (thread_turns answer) device w =
      turn-Stays device.connection_thread answer device refl w
  act-Stays joins device w = join-Stays device.connection_thread device w
  act-Stays connects device w = unfold connect in at_thread (has_thread device.connection_thread)
    where
      at_thread :
          (b : Bool)
          → (let result : DeviceGrpc grpc × Result (Unit {0}) =
                if b then (device, err Error.operation_refused) else (
                  record device {
                    connection_thread = loop_head;
                    stop_requested = false;
                    backoff = initial_backoff;
                  },
                  ok tt,
                ) in
              Stays device result.0)
      at_thread true = (w, refl)
      at_thread false = (record { still_connected = w.still_connected; off_stream = tt }, refl)
  act-Stays polls device w =
      unfold poll_incoming in
      stays device (poll_incoming device).0 w.still_connected w.off_stream refl
  act-Stays disconnects device w =
      Keeps-Stays device (disconnect stub device).0 (disconnect-Keeps device) w
  act-Stays (adds json) device w =
      Keeps-Stays device (add_interface_from_str stub device json).0
        (unfold add_interface_from_str ask in
          ground (arith, attachments-append device.requests (add_interfaces json) tt))
        w
  act-Stays (removes name) device w =
      Keeps-Stays device (remove_interface stub names device name).0
        (unfold remove_interface ask in
          ground (arith, attachments-append device.requests (remove_interfaces name) tt))
        w
  act-Stays (sends m timestamp) device w =
      Keeps-Stays device (send_message stub device m timestamp).0
        (unfold send_message ask in
          ground (arith, attachments-append device.requests (send m timestamp) tt))
        w
  act-Stays (asks_all ownership) device w =
      Keeps-Stays device (get_all_properties stub device ownership).0
        (unfold get_all_properties ask in
          ground (
            arith,
            attachments-append device.requests (all_properties (filter_of stub ownership)) tt,
          ))
        w
  act-Stays (asks_interface name) device w =
      Keeps-Stays device (get_properties stub device name).0
        (unfold get_properties in
          ground (arith, attachments-append device.requests (interface_properties name) tt))
        w
  act-Stays (asks_one name path) device w =
      Keeps-Stays device (get_property stub device name path).0
        (unfold get_property in
          ground (arith, attachments-append device.requests (one_property name path) tt))
        w

  run-Stays :
      (actions : List (Action grpc)) (device : DeviceGrpc grpc)
      → IsStuck device
      → Stays device (run stub names actions device)
  unfolding run
  run-Stays [] device w = (w, refl)
  run-Stays (a ∷ actions) device w =
      let (w', same) = act-Stays a device w in
      let (w'', same') = run-Stays actions (act stub names a device) w' in (w'', same' ∙ same)

  turn-IsStuck :
      (answer : Answer grpc) (device : DeviceGrpc grpc)
      → IsLost answer device
      → Stays device (turn answer device)
  turn-IsStuck answer device (stream_error s code f n c) =
      subst (λ stage. Stays device (turn_at stage answer device)) (sym s)
        (unfold turn_at finish_stream in
          rw f (rw n (record { still_connected = c; off_stream = tt }, refl)))
  turn-IsStuck answer device (bad_event s event r e p c) =
      subst (λ stage. Stays device (turn_at stage answer device)) (sym s)
        (unfold turn_at read_event in
          rw r (rw p (record { still_connected = c; off_stream = tt }, refl)))

  -- When an event cannot be parsed, or a stream ends with an error status while no stop is requested,
  -- the device keeps on counting as connected without a stream: whatever the two threads
  -- do from there, `disconnect` and `connect` included, the thread never attaches to the message hub
  -- again.
  pub never_reconnects :
      (answer : Answer grpc) (actions : List (Action grpc)) (device : DeviceGrpc grpc)
      → IsLost answer device
      → (let later = run stub names (thread_turns answer ∷ actions) device in
          IsStuck later × (attachments later.requests ≡ attachments device.requests))
  unfolding run act
  never_reconnects answer actions device lost =
      let (w, same) = turn-IsStuck answer device lost in
      let (w', same') = run-Stays actions (turn answer device) w in (w', same' ∙ same)
