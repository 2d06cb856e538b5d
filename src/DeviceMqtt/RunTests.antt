-- ===== src/DeviceMqtt/RunTests.antt =====
-- A device that is created, is given an interface, and sets its session up.
use astarte_device_sdk_cpp.Base.{◌≡◌, refl, some, [], ◌∷◌, codes, ok, returns}
use astarte_device_sdk_cpp.Pairing.{
  PairingJson, is_successful, parse_json, get_broker_url, get_device_key_and_certificate,
}
use astarte_device_sdk_cpp.Pairing
use astarte_device_sdk_cpp.Persistence.{write_to_file}
use astarte_device_sdk_cpp.Persistence.Tests.{reliable}
use astarte_device_sdk_cpp.Credentials.{write_all}
use astarte_device_sdk_cpp.Config.{with_credential_secret, credential_secret_of}
use astarte_device_sdk_cpp.Connection.Setup.{
  World, build_mqtt_options, renew_credentials, connection_of,
}
use astarte_device_sdk_cpp.Connection.Setup
use astarte_device_sdk_cpp.Connection.Tests.{
  texts_as_urls, answering, one_key, world, default, created,
}
use astarte_device_sdk_cpp.Introspection.{empty}
use astarte_device_sdk_cpp.Session.{
  Session, on_connected, on_setup_success, perform_session_setup, setup_subscriptions,
  send_introspection, send_emptycache, request,
}
use astarte_device_sdk_cpp.DeviceMqtt.{add_interface_from_str}
use astarte_device_sdk_cpp.DeviceMqtt.Lifecycle.{
  Surroundings, MqttDevice, self_of, with_device, with_session, new_session, create, Step, Reaches,
  further, at_start,
}
use astarte_device_sdk_cpp.Session.First.{SubscribesFirst}
use astarte_device_sdk_cpp.DeviceMqtt.Ordering.{reached-SubscribesFirst}
use astarte_device_sdk_cpp.Examples.{
  doubles, documents, text_of, parse_document, builder, willing_client, patient,
}

-- Every text is a JSON text, which is found at every place.
abbrev texts_of_documents : PairingJson documents
texts_of_documents = record {
  parse = text_of;
  at_pointer = λ j path. some j;
  dump_data = λ key value. some value;
}

abbrev pub surroundings : Surroundings
surroundings = record {
  urls = texts_as_urls;
  numbers = doubles;
  lib = documents;
  parse = parse_document;
  pairing_json = texts_of_documents;
  builder = builder;
  fs = reliable;
  http = answering;
  new_key = one_key;
  client = willing_client;
  waits = patient;
}

abbrev after_create : World
after_create =
    (Setup.create {urls = texts_as_urls} reliable documents texts_of_documents answering one_key
      default world).0

abbrev pub start : MqttDevice texts_as_urls
start = record {
  connection = created;
  device = record { introspection = empty; session = new_session };
  world = after_create;
}

pub creation : (create surroundings default world).1 ≡ returns (ok start)
unfolding create Setup.create with_credential_secret credential_secret_of build_mqtt_options
    renew_credentials Pairing.create get_broker_url get_device_key_and_certificate Pairing.text_of
    is_successful parse_json write_all write_to_file
creation = refl

abbrev pub set_up : MqttDevice texts_as_urls
set_up =
    with_session start
      (on_connected willing_client (self_of start) start.device.introspection start.device.session)

abbrev pub one_token_less : Session
one_token_less = record set_up.device.session { session_setup_tokens = 1 ∷ 2 ∷ [] }

pub reported : on_setup_success set_up.device.session ≡ some one_token_less
unfolding on_setup_success on_connected perform_session_setup setup_subscriptions send_introspection
    send_emptycache request
reported = refl

abbrev pub waiting : MqttDevice texts_as_urls
waiting = with_session set_up one_token_less

abbrev with_interface : MqttDevice texts_as_urls
with_interface =
    with_device waiting
      (add_interface_from_str documents parse_document waiting.device (codes "i")).0

reached : Reaches surroundings start with_interface
reached =
    further waiting _
      (further set_up _ (further start _ at_start (Step.connected_to_broker start))
        (Step.setup_succeeds set_up one_token_less reported))
      (Step.adds waiting (codes "i"))

reached-SubscribesFirst_example : SubscribesFirst with_interface.device.session
reached-SubscribesFirst_example =
    reached-SubscribesFirst surroundings default world start with_interface creation reached
