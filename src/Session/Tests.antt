-- ===== src/Session/Tests.antt =====
-- A setup that the client accepts, and one that it does not.
use astarte_device_sdk_cpp.Base.{
  Error, List, [], arith, codes, err, false, map, none, ok, refl, some, true, ◌++◌, ◌<◌, ◌==◌, ◌↔◌,
  ◌∷◌, ◌≡◌,
}
use astarte_device_sdk_cpp.Introspection.{values}
use astarte_device_sdk_cpp.Decimal.{to_decimal}
use astarte_device_sdk_cpp.Session.{
  Session, Request, disconnect, introspection_payload, introspection_entries, pop_back,
  perform_session_setup, setup_subscriptions, send_introspection, send_emptycache, request,
  on_connected,
}
use astarte_device_sdk_cpp.Session.Requests.{setup_requests}
use astarte_device_sdk_cpp.Session.Handshake.{
  on_reports, connected_after_reports, on_connected_of_failed_setup, late_success_blocks,
}
use astarte_device_sdk_cpp.Session.Payload.{name_and_version, introspection_payload_injective}
use astarte_device_sdk_cpp.Examples.{
  values_interface, commands_interface, introspection, identity, new_session, willing_client,
  failing_client,
}

payload : introspection_payload (values introspection) ≡ codes "a.B:1:2;a.C:1:2"
unfolding introspection_payload values pop_back introspection_entries to_decimal
payload = refl

accepted_setup :
    (perform_session_setup willing_client identity introspection false new_session).1 ≡ ok (tt {0})
unfolding perform_session_setup setup_subscriptions send_introspection send_emptycache request
accepted_setup = refl

failed_setup :
    (perform_session_setup failing_client identity introspection false new_session).1
    ≡ err Error.mqtt_connection_error
unfolding perform_session_setup setup_subscriptions send_introspection send_emptycache request
failed_setup = refl

connected_after_reports_example :
    (s : Session) × (on_reports
        (true ∷ false ∷ true ∷ true ∷ [])
        (on_connected willing_client identity introspection new_session)
      ≡ some s)
    × (s.connected ≡ (3 == 3))
    × (s.requests ≡ [] ++ setup_requests identity introspection)
connected_after_reports_example =
    connected_after_reports willing_client identity introspection new_session
      (true ∷ false ∷ true ∷ true ∷ []) refl refl accepted_setup (omega arith)

on_connected_of_failed_setup_example :
    ((on_connected failing_client identity introspection new_session).session_setup_tokens ≡ [])
    × ((on_connected failing_client identity introspection new_session).connected ≡ false)
    × (asked : List Request) × ((on_connected failing_client identity introspection
          new_session).requests
        ≡ [] ++ asked ++ disconnect ∷ [])
on_connected_of_failed_setup_example =
    on_connected_of_failed_setup failing_client identity introspection new_session failed_setup

introspection_payload_injective_example :
    map name_and_version (values_interface ∷ commands_interface ∷ [])
    ≡ map name_and_version (values introspection)
introspection_payload_injective_example =
    introspection_payload_injective (values_interface ∷ commands_interface ∷ [])
      (values introspection) (ground arith) (unfold values in ground arith) (unfold values in refl)

late_success_blocks_example :
    (on_reports (true ∷ []) (on_connected failing_client identity introspection new_session) ≡ none)
    ↔ (0 < 1)
late_success_blocks_example =
    late_success_blocks failing_client identity introspection new_session (true ∷ []) failed_setup
