-- ===== src/GrpcDevice/Tests.antt =====
-- A device that reads a stream, and one whose stream is lost.
use astarte_device_sdk_cpp.Base.{
  length, ℕ, ◌≡◌, refl, ◌≤◌, ◌-◌, ◌++◌, true, false, none, some, List, [], ◌∷◌, map, codes, ok,
  Text, Bool,
}
use astarte_device_sdk_cpp.Base.Int.{pos}
use astarte_device_sdk_cpp.Data.{Ownership, Data, int32}
use astarte_device_sdk_cpp.GrpcConverter.{
  field_of, data_of, to_grpc, from_grpc, content_from_grpc, message_from_grpc, DataCase,
  AstarteDataClass, Received, Content, individual, property,
}
use astarte_device_sdk_cpp.GrpcConverter.Properties.{StoredProperty}
use astarte_device_sdk_cpp.GrpcConverter.RoundTrip.{parts_of}
use astarte_device_sdk_cpp.SharedQueue.{pop, push}
use astarte_device_sdk_cpp.GrpcDevice.{
  Stage, reading, finishing, all_properties, Stub, DeviceGrpc, initial_backoff, poll_incoming, log,
  get_all_properties,
}
use astarte_device_sdk_cpp.GrpcDevice.Thread.{
  Answer, message, continue_reading, parse_message_hub_event, read_event, turn_at,
}
use astarte_device_sdk_cpp.GrpcDevice.Runs.{
  Action, thread_turns, joins, connects, disconnects, polls, act, run, received, polled,
}
use astarte_device_sdk_cpp.GrpcDevice.Queueing.{polled-received}
use astarte_device_sdk_cpp.GrpcDevice.Stuck.{IsStuck, attachments}
use astarte_device_sdk_cpp.GrpcDevice.Reconnection.{stream_error, never_reconnects}
use astarte_device_sdk_cpp.GrpcDevice.Stopping.{turns_left, turns_of, IsWithoutConnects, stop_ends}
use astarte_device_sdk_cpp.GrpcDevice.Sending.{send_content, Delivers, send_content-Delivers}
use astarte_device_sdk_cpp.GrpcDevice.Querying.{message_of, get_all_properties-stored}

abbrev fields : AstarteDataClass ℕ
fields = record { GrpcAstarteData = DataCase ℕ; set = λ f. f; astarte_data_case = λ f. f }

abbrev answered : Received (Content ℕ)
answered = record {
  interface_name = codes "a.B";
  path = codes "/v";
  content = individual (int32 (pos 7));
}

abbrev kept : StoredProperty Ownership (Data ℕ)
kept = record {
  interface_name = codes "a.B";
  path = codes "/v";
  version_major = pos 1;
  ownership = Ownership.server;
  value = int32 (pos 7);
}

-- A message hub that accepts everything and stores one property.
abbrev hub : Stub fields
hub = record {
  status = λ before r. none;
  stored = λ before r. map (message_of fields) (kept ∷ []);
  stored_property = λ before r. none;
}

abbrev device_at : Stage → Bool → DeviceGrpc fields
device_at stage stop = record {
  interfaces_bins = [];
  connection_thread = stage;
  connected = true;
  stop_requested = stop;
  grpc_stream_error = false;
  rcv_queue = [];
  backoff = initial_backoff;
  requests = [];
}

-- An answer with a message, and the status of a stream that has ended with an error.
abbrev answer : Answer fields
answer = record {
  metadata_empty = false;
  read = some (
      message (record {
        interface_name = codes "a.B";
        path = codes "/v";
        content = parts_of fields (individual (int32 (pos 7)));
      }));
  finish = some 14;
  jitter = λ low high. low;
}

abbrev never : Text → Text → Bool
never json name = false

abbrev three : List (Action fields)
three = thread_turns answer ∷ polls ∷ thread_turns answer ∷ []

abbrev restart : List (Action fields)
restart = disconnects ∷ thread_turns answer ∷ joins ∷ connects ∷ thread_turns answer ∷ []

polled-received_example :
    [] ++ received hub never three (device_at reading false)
    ≡ polled hub never three (device_at reading false)
      ++ (run hub never three (device_at reading false)).rcv_queue
polled-received_example = polled-received hub never three (device_at reading false)

one_is_polled : polled hub never three (device_at reading false) ≡ answered ∷ []
unfolding polled continue_reading act turn_at read_event parse_message_hub_event message_from_grpc
    content_from_grpc parts_of from_grpc to_grpc field_of data_of push pop poll_incoming
one_is_polled = refl

never_reconnects_example :
    (let later = run hub never (thread_turns answer ∷ restart) (device_at finishing false) in
      IsStuck later × (attachments later.requests ≡ attachments {grpc = fields} []))
never_reconnects_example =
    never_reconnects hub never answer restart (device_at finishing false)
      (stream_error refl 14 refl refl refl)

stop_ends_example :
    (turns_left (run hub never three (device_at reading true)).connection_thread
      ≤ 3 - turns_of three)
    × (length (received hub never three (device_at reading true)) ≤ 1)
stop_ends_example =
    stop_ends hub never three (device_at reading true) refl (unfold IsWithoutConnects in tt)

send_content-Delivers_example :
    Delivers hub true
      (device_at reading false)
      (record { interface_name = codes "a.B"; path = codes "/v"; content = property none })
      none
      (send_content hub (device_at reading false) (codes "a.B") (codes "/v") (property none) none)
send_content-Delivers_example =
    send_content-Delivers hub (device_at reading false) (codes "a.B") (codes "/v") (property none)
      none (λ f. refl)

get_all_properties-stored_example :
    get_all_properties hub (device_at reading false) none
    ≡ (log (all_properties none) (device_at reading false), ok (kept ∷ []))
get_all_properties-stored_example =
    get_all_properties-stored hub (device_at reading false) none (kept ∷ []) (λ f. refl) refl refl
      refl
