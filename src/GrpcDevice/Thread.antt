-- ===== src/GrpcDevice/Thread.antt =====
-- The connection thread (`connection_loop`, `connection_attempt`, `perform_attach`, `handle_events`
-- and `parse_message_hub_event`), cut at the calls that wait: each turn goes from one stage to the
-- next, and what the waiting ends with is the turn's answer.
use astarte_device_sdk_cpp.Base.{
  ℕ, Bool, true, false, Option, none, some, if◌then◌else◌, Result, ok, err, Error,
}
use astarte_device_sdk_cpp.Base.Int.{ℤ}
use astarte_device_sdk_cpp.Backoff.{get_next_delay}
use astarte_device_sdk_cpp.GrpcConverter.{
  AstarteDataClass, Received, Content, Parts, message_from_grpc,
}
use astarte_device_sdk_cpp.SharedQueue.{push}
use astarte_device_sdk_cpp.GrpcDevice.{
  Stage, no_thread, loop_head, attaching, reading, finishing, attempt_over, sleeping, returned,
  attach, DeviceGrpc, log,
}

-- `MessageHubEvent`: `has_message()`, `has_error()`, or neither.
pub data Event {D : Type 0} (grpc : AstarteDataClass D) : Type 0 where
  message : Received (Parts grpc) → Event grpc
  error : Event grpc
  unknown : Event grpc

-- What the calls of a turn return: the server's metadata are empty; the event read, if there is
-- one; the status of `Finish`, which is absence for `ok()`; and the draw of the jitter.
pub record Answer {D : Type 0} (grpc : AstarteDataClass D) : Type 0 where
  pub metadata_empty : Bool
  pub read : Option (Event grpc)
  pub finish : Option ℕ
  pub jitter : ℤ → ℤ → ℤ

module _ {D : Type 0} {grpc : AstarteDataClass D} where
  unfoldable pub parse_message_hub_event : Event grpc → Result (Received (Content D))
  parse_message_hub_event (message m) = message_from_grpc grpc m
  parse_message_hub_event error = err Error.msg_hub_error
  parse_message_hub_event unknown = err Error.internal_error

  abbrev pub go_to : Stage → DeviceGrpc grpc → DeviceGrpc grpc
  go_to stage device = record device { connection_thread = stage }

  -- The start of `connection_attempt`, up to the wait for the metadata.
  unfoldable pub start_attempt : DeviceGrpc grpc → DeviceGrpc grpc
  start_attempt device =
      if device.connected
      then go_to attempt_over device
      else go_to attaching (log (attach device.interfaces_bins) device)

  -- The test of the loop of `handle_events`, before the next wait for an event.
  unfoldable pub continue_reading : DeviceGrpc grpc → DeviceGrpc grpc
  continue_reading device = go_to (if device.stop_requested then finishing else reading) device

  -- The end of `perform_attach`.
  unfoldable pub end_attach : Bool → DeviceGrpc grpc → DeviceGrpc grpc
  end_attach metadata_empty device =
      if metadata_empty
      then record device { connection_thread = attempt_over; grpc_stream_error = true }
      else continue_reading (record device { grpc_stream_error = false; connected = true })

  abbrev pub handle_parsed : Result (Received (Content D)) → DeviceGrpc grpc → DeviceGrpc grpc
  handle_parsed (ok m) device =
      continue_reading (record device { rcv_queue = push m device.rcv_queue })
  handle_parsed (err e) device = go_to attempt_over device

  -- What `Read` returns; an event that cannot be parsed ends the attempt.
  unfoldable pub read_event : Option (Event grpc) → DeviceGrpc grpc → DeviceGrpc grpc
  read_event none device = go_to finishing device
  read_event (some event) device = handle_parsed (parse_message_hub_event event) device

  -- The end of `handle_events`, and of the attempt: only a success lowers `connected`.
  unfoldable pub finish_stream : Option ℕ → DeviceGrpc grpc → DeviceGrpc grpc
  finish_stream none device = record device { connection_thread = attempt_over; connected = false }
  finish_stream (some code) device =
      if device.stop_requested
      then record device { connection_thread = attempt_over; connected = false }
      else record device { connection_thread = attempt_over; grpc_stream_error = true }

  -- The `while` of `connection_loop`, and the test after an attempt.
  unfoldable pub turn_at : Stage → Answer grpc → DeviceGrpc grpc → DeviceGrpc grpc
  turn_at no_thread answer device = device
  turn_at loop_head answer device =
      if device.stop_requested then go_to returned device else start_attempt device
  turn_at attaching answer device = end_attach answer.metadata_empty device
  turn_at reading answer device = read_event answer.read device
  turn_at finishing answer device = finish_stream answer.finish device
  turn_at attempt_over answer device =
      if device.stop_requested then go_to returned device else record device {
        connection_thread = sleeping;
        backoff = (get_next_delay answer.jitter device.backoff).0;
      }
  turn_at sleeping answer device = go_to loop_head device
  turn_at returned answer device = device

  abbrev pub turn : Answer grpc → DeviceGrpc grpc → DeviceGrpc grpc
  turn answer device = turn_at device.connection_thread answer device

  -- The last line of `disconnect`: the thread is joined when it has returned.
  unfoldable pub join_at : Stage → DeviceGrpc grpc → DeviceGrpc grpc
  join_at returned device = go_to no_thread device
  join_at _ device = device

  abbrev pub join : DeviceGrpc grpc → DeviceGrpc grpc
  join device = join_at device.connection_thread device
