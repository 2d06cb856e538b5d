-- ===== src/GrpcDevice/Stopping.antt =====
-- How the connection thread ends when a stop is requested.
use astarte_device_sdk_cpp.Base.{
  length, length-append, ℕ, ◌≡◌, refl, sym, subst, ◌≤◌, ◌+◌, ◌-◌, Bool, true, Option, none, some,
  List, [], ◌∷◌, Text, arith,
}
use astarte_device_sdk_cpp.GrpcConverter.{AstarteDataClass}
use astarte_device_sdk_cpp.GrpcDevice.{
  Stage, no_thread, loop_head, attaching, reading, finishing, attempt_over, sleeping, returned,
  Stub, DeviceGrpc, ask, poll_incoming, add_interface_from_str, remove_interface, disconnect,
  send_message, get_all_properties, get_properties, get_property,
}
use astarte_device_sdk_cpp.GrpcDevice.Thread.{
  Event, Answer, turn, turn_at, join_at, start_attempt, end_attach, read_event, continue_reading,
  finish_stream,
}
use astarte_device_sdk_cpp.GrpcDevice.Runs.{
  Action, thread_turns, joins, connects, disconnects, polls, adds, removes, sends, asks_all,
  asks_interface, asks_one, act, run, received, received_from, received_at,
}

-- The turns that a thread still takes when it is asked to stop.
abbrev pub turns_left : Stage → ℕ
turns_left no_thread = 0
turns_left returned = 0
turns_left loop_head = 1
turns_left attempt_over = 1
turns_left finishing = 2
turns_left sleeping = 2
turns_left reading = 3
turns_left attaching = 3

-- The messages that it may still receive.
abbrev pub messages_left : Stage → ℕ
messages_left reading = 1
messages_left _ = 0

messages_left-le : (stage : Stage) → messages_left stage ≤ 1
messages_left-le reading = omega arith
messages_left-le _ = omega arith

turns_left-le : (stage : Stage) → turns_left stage ≤ 3
turns_left-le no_thread = omega arith
turns_left-le returned = omega arith
turns_left-le loop_head = omega arith
turns_left-le attempt_over = omega arith
turns_left-le finishing = omega arith
turns_left-le sleeping = omega arith
turns_left-le reading = omega arith
turns_left-le attaching = omega arith

module _ {D : Type 0} {grpc : AstarteDataClass D} where
  -- The turns of the thread among the actions.
  unfoldable pub turns_of : List (Action grpc) → ℕ
  turns_of [] = 0
  turns_of (thread_turns answer ∷ actions) = 1 + turns_of actions
  turns_of (_ ∷ actions) = turns_of actions

  -- There is no call of `connect`.
  unfoldable pub IsWithoutConnects : List (Action grpc) → Type 0
  IsWithoutConnects [] = Unit
  IsWithoutConnects (connects ∷ actions) = ⊥
  IsWithoutConnects (_ ∷ actions) = IsWithoutConnects actions

  -- One turn keeps the request, is nearer to the end, and receives a message at most while reading.
  abbrev TurnStops : Stage → Answer grpc → DeviceGrpc grpc → Type 0
  TurnStops stage answer device =
      ((turn_at stage answer device).stop_requested ≡ true)
      × (turns_left (turn_at stage answer device).connection_thread ≤ turns_left stage - 1)
      × (length (received_at stage answer device)
            + messages_left (turn_at stage answer device).connection_thread
          ≤ messages_left stage)

  turn-TurnStops :
      (stage : Stage) (answer : Answer grpc) (device : DeviceGrpc grpc)
      → device.stop_requested ≡ true
      → device.connection_thread ≡ stage
      → TurnStops stage answer device
  unfolding turn_at start_attempt end_attach read_event continue_reading finish_stream
  turn-TurnStops no_thread answer device s e = (
    s,
    subst (λ t. turns_left t ≤ 0) (sym e) (omega arith),
    subst (λ t. 0 + messages_left t ≤ 0) (sym e) (omega arith),
  )
  turn-TurnStops returned answer device s e = (
    s,
    subst (λ t. turns_left t ≤ 0) (sym e) (omega arith),
    subst (λ t. 0 + messages_left t ≤ 0) (sym e) (omega arith),
  )
  turn-TurnStops reading answer device s e = read-TurnStops answer.read
    where
      read-TurnStops :
          (read : Option (Event grpc))
          → ((read_event read device).stop_requested ≡ true)
            × (turns_left (read_event read device).connection_thread ≤ 2)
            × (length (received_from read)
                  + messages_left (read_event read device).connection_thread
                ≤ 1)
      read-TurnStops none = (s, omega arith, omega arith)
      read-TurnStops (some event) = ground arith
  turn-TurnStops stage answer device s e = ground arith

  -- The other actions keep the request and do not lead away from the end.
  abbrev StaysStopped : DeviceGrpc grpc → DeviceGrpc grpc → Type 0
  StaysStopped device device' =
      (device'.stop_requested ≡ true)
      × (turns_left device'.connection_thread ≤ turns_left device.connection_thread)
      × (messages_left device'.connection_thread ≤ messages_left device.connection_thread)

  join-StaysStopped :
      (stage : Stage) (device : DeviceGrpc grpc)
      → device.stop_requested ≡ true
      → device.connection_thread ≡ stage
      → StaysStopped device (join_at stage device)
  unfolding join_at
  join-StaysStopped returned device s e = (s, omega arith, omega arith)
  join-StaysStopped stage device s e = (s, omega arith, omega arith)

module _ {D : Type 0} {grpc : AstarteDataClass D} (stub : Stub grpc)
    (names : Text → Text → Bool) where
  app-StaysStopped :
      (a : Action grpc) (device : DeviceGrpc grpc)
      → device.stop_requested ≡ true
      → turns_of (a ∷ []) ≡ 0
      → IsWithoutConnects (a ∷ [])
      → StaysStopped device (act stub names a device)
  unfolding act turns_of IsWithoutConnects
  app-StaysStopped (thread_turns answer) device s t w = absurd (omega arith)
  app-StaysStopped connects device s t w = absurd w
  app-StaysStopped joins device s t w = join-StaysStopped device.connection_thread device s refl
  app-StaysStopped disconnects device s t w = unfold disconnect ask in ground arith
  app-StaysStopped polls device s t w = unfold poll_incoming in ground arith
  app-StaysStopped (adds json) device s t w = unfold add_interface_from_str ask in ground arith
  app-StaysStopped (removes name) device s t w = unfold remove_interface ask in ground arith
  app-StaysStopped (sends m timestamp) device s t w = unfold send_message ask in ground arith
  app-StaysStopped (asks_all ownership) device s t w = unfold get_all_properties in ground arith
  app-StaysStopped (asks_interface name) device s t w = unfold get_properties in ground arith
  app-StaysStopped (asks_one name path) device s t w = unfold get_property in ground arith

  -- What a run brings about from a device that is asked to stop.
  abbrev Winds : List (Action grpc) → DeviceGrpc grpc → Type 0
  Winds actions device =
      (turns_left (run stub names actions device).connection_thread
        ≤ turns_left device.connection_thread - turns_of actions)
      × (length (received stub names actions device) ≤ messages_left device.connection_thread)

  run-Winds :
      (actions : List (Action grpc)) (device : DeviceGrpc grpc)
      → device.stop_requested ≡ true
      → IsWithoutConnects actions
      → Winds actions device
  unfolding run act turns_of IsWithoutConnects received
  run-Winds [] device s w = (omega arith, omega arith)
  run-Winds (thread_turns answer ∷ actions) device s w =
      let (s', l, r) = turn-TurnStops device.connection_thread answer device s refl in
      let (l', r') = run-Winds actions (turn answer device) s' w in
      let m =
        length-append (received_at device.connection_thread answer device)
          (received stub names actions (turn answer device)) in
      (omega arith, omega arith)
  run-Winds (connects ∷ actions) device s w = absurd w
  run-Winds (a ∷ actions) device s w =
      let (s', l, n) = app-StaysStopped a device s refl tt in
      let (l', r') = run-Winds actions (act stub names a device) s' w in (omega arith, omega arith)

  -- Once a stop is requested, and until `connect` is called again, each turn of the
  -- connection thread brings it nearer to its end, which is at most three turns away, and at most
  -- one message is received: whatever the message hub answers and whatever else the application does.
  pub stop_ends :
      (actions : List (Action grpc)) (device : DeviceGrpc grpc)
      → device.stop_requested ≡ true
      → IsWithoutConnects actions
      → (turns_left (run stub names actions device).connection_thread ≤ 3 - turns_of actions)
        × (length (received stub names actions device) ≤ 1)
  stop_ends actions device s w =
      let (l, r) = run-Winds actions device s w in
      let m = turns_left-le device.connection_thread in
      let n = messages_left-le device.connection_thread in (omega arith, omega arith)
