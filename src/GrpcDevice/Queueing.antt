-- ===== src/GrpcDevice/Queueing.antt =====
-- The queue between the connection thread and the application.
use astarte_device_sdk_cpp.Base.{
  ◌≡◌, refl, sym, ap, ◌∙◌, Bool, Option, none, some, List, [], ◌∷◌, ◌++◌, Text, Result, ok, err,
  arith,
}
use mathlib.Core.List.{append_assoc, append-nil}
use astarte_device_sdk_cpp.GrpcConverter.{AstarteDataClass, Received, Content}
use astarte_device_sdk_cpp.SharedQueue.{pop, push}
use astarte_device_sdk_cpp.GrpcDevice.{
  Stage, no_thread, reading, returned, Stub, DeviceGrpc, ask, connect, poll_incoming,
  add_interface_from_str, remove_interface, disconnect, send_message, get_all_properties,
  get_properties, get_property,
}
use astarte_device_sdk_cpp.GrpcDevice.Thread.{
  Event, Answer, parse_message_hub_event, turn_at, join_at, start_attempt, end_attach, read_event,
  handle_parsed, continue_reading, finish_stream,
}
use astarte_device_sdk_cpp.GrpcDevice.Runs.{
  Action, thread_turns, joins, connects, disconnects, polls, adds, removes, sends, asks_all,
  asks_interface, asks_one, act, run, parsed, received_from, received_at, received_in, polled_in,
  received, polled, listed,
}

poll-queue : {T : Type 0} → (queue : List T) → queue ++ [] ≡ listed (pop queue).1 ++ (pop queue).0
unfolding pop
poll-queue [] = refl
poll-queue (m ∷ queue) = append-nil (m ∷ queue)

module _ {D : Type 0} {grpc : AstarteDataClass D} where
  handle_parsed-queue :
      (r : Result (Received (Content D))) (device : DeviceGrpc grpc)
      → device.rcv_queue ++ parsed r ≡ (handle_parsed r device).rcv_queue
  unfolding push continue_reading
  handle_parsed-queue (ok m) device = refl
  handle_parsed-queue (err e) device = append-nil device.rcv_queue

  read-queue :
      (read : Option (Event grpc)) (device : DeviceGrpc grpc)
      → device.rcv_queue ++ received_from read ≡ (read_event read device).rcv_queue
  unfolding read_event
  read-queue none device = append-nil device.rcv_queue
  read-queue (some event) device = handle_parsed-queue (parse_message_hub_event event) device

  turn-queue :
      (stage : Stage) (answer : Answer grpc) (device : DeviceGrpc grpc)
      → device.rcv_queue ++ received_at stage answer device
        ≡ (turn_at stage answer device).rcv_queue
  unfolding turn_at start_attempt end_attach continue_reading finish_stream
  turn-queue no_thread answer device = append-nil device.rcv_queue
  turn-queue reading answer device = read-queue answer.read device
  turn-queue stage answer device = ground (arith, append-nil device.rcv_queue)

  join-queue :
      (stage : Stage) (device : DeviceGrpc grpc)
      → (join_at stage device).rcv_queue ≡ device.rcv_queue
  unfolding join_at
  join-queue returned device = refl
  join-queue stage device = refl

module _ {D : Type 0} {grpc : AstarteDataClass D} (stub : Stub grpc)
    (names : Text → Text → Bool) where
  -- What the application does but for polling leaves the queue as it is.
  act-queue :
      (a : Action grpc) (device : DeviceGrpc grpc)
      → device.rcv_queue ++ received_in a device
        ≡ polled_in a device ++ (act stub names a device).rcv_queue
  unfolding act
  act-queue (thread_turns answer) device = turn-queue device.connection_thread answer device
  act-queue joins device =
      append-nil device.rcv_queue ∙ sym (join-queue device.connection_thread device)
  act-queue connects device = unfold connect in ground (arith, append-nil device.rcv_queue)
  act-queue disconnects device =
      unfold disconnect ask in ground (arith, append-nil device.rcv_queue)
  act-queue polls device = unfold poll_incoming in poll-queue device.rcv_queue
  act-queue (adds json) device =
      unfold add_interface_from_str ask in ground (arith, append-nil device.rcv_queue)
  act-queue (removes name) device =
      unfold remove_interface ask in ground (arith, append-nil device.rcv_queue)
  act-queue (sends message timestamp) device =
      unfold send_message ask in ground (arith, append-nil device.rcv_queue)
  act-queue (asks_all ownership) device =
      unfold get_all_properties in ground (arith, append-nil device.rcv_queue)
  act-queue (asks_interface name) device =
      unfold get_properties in ground (arith, append-nil device.rcv_queue)
  act-queue (asks_one name path) device =
      unfold get_property in ground (arith, append-nil device.rcv_queue)

  -- In every run of the two threads, the messages that the application polls are the ones that were
  -- queued before it and then the ones that were received and parsed during it, in their order, each
  -- once; what is not polled yet is in the queue.
  pub polled-received :
      (actions : List (Action grpc)) (device : DeviceGrpc grpc)
      → device.rcv_queue ++ received stub names actions device
        ≡ polled stub names actions device ++ (run stub names actions device).rcv_queue
  unfolding received polled run
  polled-received [] device = append-nil device.rcv_queue
  polled-received (a ∷ actions) device =
      let next = act stub names a device in
      sym (append_assoc device.rcv_queue (received_in a device) (received stub names actions next))
      ∙ ap (λ l. l ++ received stub names actions next) (act-queue a device)
      ∙ append_assoc (polled_in a device) next.rcv_queue (received stub names actions next)
      ∙ ap (λ l. polled_in a device ++ l) (polled-received actions next)
      ∙ sym (
          append_assoc (polled_in a device) (polled stub names actions next)
            (run stub names actions next).rcv_queue)
