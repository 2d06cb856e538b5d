-- ===== src/GrpcDevice/Runs.antt =====
-- The two threads of a device, interleaved in any order: the steps that the application and the
-- connection thread take, what a run of them does, and the messages that go through the queue.
use astarte_device_sdk_cpp.Base.{
  Bool, Option, none, some, List, [], ◌∷◌, ◌++◌, Text, Result, ok, err,
}
use astarte_device_sdk_cpp.Data.{Ownership}
use astarte_device_sdk_cpp.GrpcConverter.{Timestamp, AstarteDataClass, Received, Content, Parts}
use astarte_device_sdk_cpp.GrpcDevice.{
  Stage, reading, Stub, DeviceGrpc, connect, poll_incoming, add_interface_from_str,
  remove_interface, disconnect, send_message, get_all_properties, get_properties, get_property,
}
use astarte_device_sdk_cpp.GrpcDevice.Thread.{Event, Answer, parse_message_hub_event, turn, join}

pub data Action {D : Type 0} (grpc : AstarteDataClass D) : Type 0 where
  thread_turns : Answer grpc → Action grpc
  joins connects disconnects polls : Action grpc
  adds : (json : Text) → Action grpc
  removes : (name : Text) → Action grpc
  sends : (message : Received (Parts grpc)) (timestamp : Option Timestamp) → Action grpc
  asks_all : (ownership : Option Ownership) → Action grpc
  asks_interface : (name : Text) → Action grpc
  asks_one : (interface_name path : Text) → Action grpc

abbrev pub parsed : {T : Type 0} → Result T → List T
parsed (ok value) = value ∷ []
parsed (err e) = []

abbrev pub listed : {T : Type 0} → Option T → List T
listed none = []
listed (some value) = value ∷ []

module _ {D : Type 0} {grpc : AstarteDataClass D} where
  -- The message that a turn of the thread reads.
  abbrev pub received_from : Option (Event grpc) → List (Received (Content D))
  received_from none = []
  received_from (some event) = parsed (parse_message_hub_event event)

  abbrev pub received_at : Stage → Answer grpc → DeviceGrpc grpc → List (Received (Content D))
  received_at reading answer device = received_from answer.read
  received_at _ answer device = []

  abbrev pub received_in : Action grpc → DeviceGrpc grpc → List (Received (Content D))
  received_in (thread_turns answer) device = received_at device.connection_thread answer device
  received_in _ device = []

  abbrev pub polled_in : Action grpc → DeviceGrpc grpc → List (Received (Content D))
  polled_in polls device = listed (poll_incoming device).1
  polled_in _ device = []

module _ {D : Type 0} {grpc : AstarteDataClass D} (stub : Stub grpc)
    (names : Text → Text → Bool) where
  unfoldable pub act : Action grpc → DeviceGrpc grpc → DeviceGrpc grpc
  act (thread_turns answer) device = turn answer device
  act joins device = join device
  act connects device = (connect device).0
  act disconnects device = (disconnect stub device).0
  act polls device = (poll_incoming device).0
  act (adds json) device = (add_interface_from_str stub device json).0
  act (removes name) device = (remove_interface stub names device name).0
  act (sends message timestamp) device = (send_message stub device message timestamp).0
  act (asks_all ownership) device = (get_all_properties stub device ownership).0
  act (asks_interface name) device = (get_properties stub device name).0
  act (asks_one name path) device = (get_property stub device name path).0

  unfoldable pub run : List (Action grpc) → DeviceGrpc grpc → DeviceGrpc grpc
  run [] device = device
  run (a ∷ actions) device = run actions (act a device)

  -- The messages that a run receives, and those that it returns to the application.
  unfoldable pub received : List (Action grpc) → DeviceGrpc grpc → List (Received (Content D))
  received [] device = []
  received (a ∷ actions) device = received_in a device ++ received actions (act a device)

  unfoldable pub polled : List (Action grpc) → DeviceGrpc grpc → List (Received (Content D))
  polled [] device = []
  polled (a ∷ actions) device = polled_in a device ++ polled actions (act a device)
