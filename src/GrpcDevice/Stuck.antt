-- ===== src/GrpcDevice/Stuck.antt =====
-- A device that counts as connected without a stream, through the steps of its threads.
use astarte_device_sdk_cpp.Base.{
  ◌≡◌, refl, sym, ap, subst, ◌∙◌, Bool, true, false, List, [], ◌∷◌, ◌++◌, Text, if◌then◌else◌,
}
use astarte_device_sdk_cpp.GrpcConverter.{AstarteDataClass}
use astarte_device_sdk_cpp.Backoff.{get_next_delay}
use astarte_device_sdk_cpp.GrpcDevice.{
  Stage, no_thread, loop_head, attaching, reading, finishing, attempt_over, sleeping, returned,
  Request, attach, DeviceGrpc, log,
}
use astarte_device_sdk_cpp.GrpcDevice.Thread.{Answer, turn_at, join_at, go_to, start_attempt}

-- The thread has no stream.
abbrev pub IsOffStream : Stage → Type 0
IsOffStream attaching = ⊥
IsOffStream reading = ⊥
IsOffStream finishing = ⊥
IsOffStream _ = Unit

-- The device counts as connected, and there is no stream.
pub record IsStuck {D : Type 0} {grpc : AstarteDataClass D} (device : DeviceGrpc grpc)
    : Type 0 where
  pub still_connected : device.connected ≡ true
  pub off_stream : IsOffStream device.connection_thread

module _ {D : Type 0} {grpc : AstarteDataClass D} where
  -- The attachments among the requests.
  unfoldable pub attachments : List (Request grpc) → List (List Text)
  attachments [] = []
  attachments (attach bins ∷ requests) = bins ∷ attachments requests
  attachments (_ ∷ requests) = attachments requests

  abbrev pub IsOther : Request grpc → Type 0
  IsOther (attach bins) = ⊥
  IsOther _ = Unit

  pub attachments-append :
      (requests : List (Request grpc)) (r : Request grpc)
      → IsOther r
      → attachments (requests ++ r ∷ []) ≡ attachments requests
  unfolding attachments
  attachments-append [] (attach bins) h = absurd h
  attachments-append [] r h = refl
  attachments-append (attach bins ∷ requests) r h = ap (◌∷◌ bins) (attachments-append requests r h)
  attachments-append (q ∷ requests) r h = attachments-append requests r h

  -- A device that is stuck stays so, and attaches to nothing.
  abbrev pub Stays : DeviceGrpc grpc → DeviceGrpc grpc → Type 0
  Stays device device' =
      IsStuck device' × (attachments device'.requests ≡ attachments device.requests)

  pub stays :
      (device device' : DeviceGrpc grpc)
      → device'.connected ≡ true
      → IsOffStream device'.connection_thread
      → attachments device'.requests ≡ attachments device.requests
      → Stays device device'
  stays device device' connected off same =
      (record { still_connected = connected; off_stream = off }, same)

  pub turn-Stays :
      (stage : Stage) (answer : Answer grpc) (device : DeviceGrpc grpc)
      → device.connection_thread ≡ stage
      → IsStuck device
      → Stays device (turn_at stage answer device)
  unfolding turn_at start_attempt
  turn-Stays no_thread answer device e w = (w, refl)
  turn-Stays returned answer device e w = (w, refl)
  turn-Stays sleeping answer device e w =
      stays device (go_to loop_head device) w.still_connected tt refl
  turn-Stays loop_head answer device e w =
      at_stop device.stop_requested device.connected w.still_connected
    where
      at_stop :
          (stop connected : Bool)
          → connected ≡ true
          → Stays device (
              if stop
              then go_to returned device
              else if connected
              then go_to attempt_over device
              else go_to attaching (log (attach device.interfaces_bins) device))
      at_stop true connected c = stays device (go_to returned device) w.still_connected tt refl
      at_stop false true c = stays device (go_to attempt_over device) w.still_connected tt refl
      at_stop false false c = absurd cc
  turn-Stays attempt_over answer device e w = at_stop device.stop_requested
    where
      at_stop :
          (stop : Bool)
          → Stays device (
              if stop then go_to returned device else record device {
                connection_thread = sleeping;
                backoff = (get_next_delay answer.jitter device.backoff).0;
              })
      at_stop true = stays device (go_to returned device) w.still_connected tt refl
      at_stop false = (record { still_connected = w.still_connected; off_stream = tt }, refl)
  turn-Stays attaching answer device e w = absurd (subst IsOffStream e w.off_stream)
  turn-Stays reading answer device e w = absurd (subst IsOffStream e w.off_stream)
  turn-Stays finishing answer device e w = absurd (subst IsOffStream e w.off_stream)

  pub join-Stays :
      (stage : Stage) (device : DeviceGrpc grpc)
      → IsStuck device
      → Stays device (join_at stage device)
  unfolding join_at
  join-Stays returned device w = stays device (go_to no_thread device) w.still_connected tt refl
  join-Stays stage device w = (w, refl)

  -- What the application does, but for starting and joining the thread.
  abbrev pub Keeps : DeviceGrpc grpc → DeviceGrpc grpc → Type 0
  Keeps device device' =
      (device'.connected ≡ device.connected)
      × (device'.connection_thread ≡ device.connection_thread)
      × (attachments device'.requests ≡ attachments device.requests)

  pub Keeps-Stays :
      (device device' : DeviceGrpc grpc)
      → Keeps device device'
      → IsStuck device
      → Stays device device'
  Keeps-Stays device device' (c, t, a) w =
      stays device device' (c ∙ w.still_connected) (subst IsOffStream (sym t) w.off_stream) a
