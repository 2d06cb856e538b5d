-- ===== src/DeviceMqtt/ServingTests.antt =====
-- A device that is created, sets its session up, is given an interface and sends a reading.
use astarte_device_sdk_cpp.Base.{
  ℕ, ◌≡◌, refl, ap, ◌∙◌, true, none, some, [], ◌∷◌, codes, ok, returns, text_eq,
}
use astarte_device_sdk_cpp.Data.{get_type}
use astarte_device_sdk_cpp.EndpointPath.{starts_with_byte}
use astarte_device_sdk_cpp.Mapping.{match_path}
use astarte_device_sdk_cpp.OrderedMap.{find, insert_or_assign}
use astarte_device_sdk_cpp.Introspection.{get, checked_insert}
use astarte_device_sdk_cpp.Interface.Validation.{here, Conforms}
use astarte_device_sdk_cpp.Interface.Tests.{read_interface, read_document}
use astarte_device_sdk_cpp.Serialize.{serialize_astarte_individual}
use astarte_device_sdk_cpp.Session.{Session, Request, on_setup_success}
use astarte_device_sdk_cpp.Connection.{settles}
use astarte_device_sdk_cpp.Connection.Tests.{texts_as_urls, world, default}
use astarte_device_sdk_cpp.DeviceMqtt.{
  is_connected, encode, insert_read, interface_from_str, add_interface_from_str, send_individual,
}
use astarte_device_sdk_cpp.DeviceMqtt.Publishing.{with_message}
use astarte_device_sdk_cpp.DeviceMqtt.Lifecycle.{
  MqttDevice, self_of, with_device, with_session, Step, Reaches, further, at_start,
}
use astarte_device_sdk_cpp.DeviceMqtt.Serving.{reached_device_delivers}
use astarte_device_sdk_cpp.DeviceMqtt.RunTests.{
  surroundings, start, creation, set_up, one_token_less, reported, waiting,
}
use astarte_device_sdk_cpp.Examples.{
  value_mapping, doubles, documents, parse_document, willing_client, patient, builder,
}
use astarte_device_sdk_cpp.Examples.Facts.{path, reading, matched}
use astarte_device_sdk_cpp.Policies.Reliability.{unreliable}

abbrev last_token : Session
last_token = record one_token_less { session_setup_tokens = 2 ∷ [] }

abbrev ready : Session
ready = record one_token_less { connected = true; session_setup_tokens = [] }

second : on_setup_success one_token_less ≡ some last_token
unfolding on_setup_success
second = refl

third : on_setup_success last_token ≡ some ready
unfolding on_setup_success
third = refl

abbrev at_last : MqttDevice texts_as_urls
at_last = with_session waiting last_token

abbrev connected : MqttDevice texts_as_urls
connected = with_session at_last ready

abbrev serving : MqttDevice texts_as_urls
serving =
    with_device connected
      (add_interface_from_str documents parse_document connected.device (codes "i")).0

reached : Reaches surroundings start serving
reached =
    further connected _
      (further at_last _
        (further waiting _
          (further set_up _ (further start _ at_start (Step.connected_to_broker start))
            (Step.setup_succeeds set_up one_token_less reported))
          (Step.setup_succeeds waiting last_token second))
        (Step.setup_succeeds at_last ready third))
      (Step.adds connected (codes "i"))

read : interface_from_str documents parse_document (codes "i") ≡ ok read_interface
unfolding interface_from_str
read = read_document

with_read : serving.device ≡ (insert_read connected.device (ok read_interface)).0
unfolding add_interface_from_str
with_read = ap (λ r. (insert_read connected.device r).0) read

serving-is_connected : is_connected serving.device ≡ true
serving-is_connected = ap is_connected with_read ∙ unfold insert_read in refl

found : get serving.device.introspection (codes "a.B") ≡ ok read_interface
found =
    ap (λ d. get d.introspection (codes "a.B")) with_read
    ∙ unfold insert_read checked_insert find get insert_or_assign text_eq in refl

reading-fits : Conforms doubles read_interface path reading none
unfolding get_type match_path
reading-fits = record {
  mapping = record value_mapping { explicit_timestamp = none; reliability = some unreliable };
  chosen = here matched;
  typed = refl;
  finite = refl;
  stamped = tt;
}

takes_all : (s : Session) (r : Request) → settles willing_client patient s r ≡ true
unfolding settles
takes_all s r = refl

rooted : starts_with_byte b'/' path ≡ true
unfolding starts_with_byte
rooted = refl

reading-encoded :
    encode builder (serialize_astarte_individual builder [] (codes "v") reading none)
    ≡ some (serialize_astarte_individual builder [] (codes "v") reading none)
unfolding encode
reading-encoded = refl

reached_device_delivers_example :
    (qos : ℕ) × (send_individual willing_client patient
        (self_of serving)
        builder
        serving.device
        (codes "a.B")
        path
        reading
        none
      ≡ (
        with_message
            (self_of serving)
            serving.device
            (codes "a.B")
            path
            qos
            (serialize_astarte_individual builder [] (codes "v") reading none),
        returns (ok (tt {0})),
      ))
reached_device_delivers_example =
    reached_device_delivers surroundings default world start serving (codes "a.B") path reading none
      read_interface (serialize_astarte_individual builder [] (codes "v") reading none)
      (λ j key x. refl) takes_all creation reached serving-is_connected found reading-fits
      reading-encoded rooted
