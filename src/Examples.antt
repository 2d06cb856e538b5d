-- ===== src/Examples.antt =====
-- Test data: an interface with one mapping, a small JSON library, a builder of documents, and a
-- client that takes every message.
pub mod Facts
use astarte_device_sdk_cpp.Base.{
  ℕ, ◌+◌, ltb, Bool, true, false, Option, none, some, List, [], ◌∷◌, ◌++◌, Text, codes, text_eq,
  length, is_empty, if◌then◌else◌,
}
use astarte_device_sdk_cpp.Base.Int.{ℤ, pos}
use astarte_device_sdk_cpp.Data.{AstarteType, Ownership, Doubles}
use astarte_device_sdk_cpp.Json.{JsonLibrary, Kind}
use astarte_device_sdk_cpp.Policies.Reliability.{unique}
use astarte_device_sdk_cpp.Policies.InterfaceType.{datastream}
use astarte_device_sdk_cpp.Mapping.{Mapping}
use astarte_device_sdk_cpp.Interface.{Interface}
use astarte_device_sdk_cpp.Introspection.{Introspection}
use astarte_device_sdk_cpp.Serialize.{JsonBuilder}
use astarte_device_sdk_cpp.Session.{Session, Client, Identity}
use astarte_device_sdk_cpp.Connection.{Waits}
use astarte_device_sdk_cpp.DeviceMqtt.{DeviceMqtt}

-- Numbers in the place of doubles; those below 100 count as finite.
abbrev pub doubles : Doubles
doubles = record { Double = ℕ; is_finite = λ x. ltb x 100 }

abbrev pub value_mapping : Mapping
value_mapping = record {
  endpoint = codes "/%{id}/v";
  type = AstarteType.double;
  explicit_timestamp = some true;
  reliability = some unique;
  retention = none;
  expiry = none;
  database_retention_policy = none;
  database_retention_ttl = none;
  allow_unset = none;
  description = none;
  doc = none;
}

abbrev pub values_interface : Interface
values_interface = record {
  interface_name = codes "a.B";
  version_major = 1;
  version_minor = 2;
  interface_type = datastream;
  ownership = Ownership.device;
  aggregation = none;
  description = none;
  doc = none;
  mappings = value_mapping ∷ [];
}

abbrev pub newer_interface : Interface
newer_interface = record values_interface { version_minor = 3 }

abbrev pub commands_interface : Interface
commands_interface = record values_interface {
  interface_name = codes "a.C";
  ownership = Ownership.server;
}

abbrev pub introspection : Introspection
introspection = record {
  interfaces = (codes "a.B", values_interface) ∷ (codes "a.C", commands_interface) ∷ [];
}

abbrev pub identity : Identity
identity = record { realm = codes "r"; device_id = codes "d" }

abbrev pub new_session : Session
new_session = record { connected = false; session_setup_tokens = []; requests = [] }

abbrev pub device : DeviceMqtt
device = record { introspection = introspection; session = record new_session { connected = true } }

-- The token is the number of requests before it.
abbrev pub willing_client : Client
willing_client = λ requests r. some (length requests)

-- A client that throws from the second request on.
abbrev pub failing_client : Client
failing_client = λ requests r. if is_empty requests then some 0 else none

abbrev pub patient : Waits
patient = λ token. true

-- JSON documents.
mutual
  pub data Document : Type 0 where
    object_of : Members → Document
    array_of : Documents → Document
    text_of : Text → Document
    int_of : ℤ → Document

  pub data Members : Type 0 where
    end_of_object : Members
    member : Text → Document → Members → Members

  pub data Documents : Type 0 where
    end_of_array : Documents
    element : Document → Documents → Documents

abbrev pub find_member : Members → Text → Option Document
find_member end_of_object key = none
find_member (member k v ms) key = if text_eq k key then some v else find_member ms key

abbrev pub elements_of : Documents → List Document
elements_of end_of_array = []
elements_of (element d ds) = d ∷ elements_of ds

abbrev pub document_kind : Document → Kind
document_kind (object_of ms) = Kind.object
document_kind (array_of ds) = Kind.array
document_kind (text_of s) = Kind.string
document_kind (int_of n) = Kind.number_integer

abbrev pub document_find : Document → Text → Option Document
document_find (object_of ms) key = find_member ms key
document_find d key = none

abbrev pub document_text : Document → Text
document_text (text_of s) = s
document_text d = []

abbrev pub document_int : Document → ℤ
document_int (int_of n) = n
document_int d = pos 0

abbrev pub document_elements : Document → List Document
document_elements (array_of ds) = elements_of ds
document_elements d = []

abbrev pub documents : JsonLibrary
documents = record {
  Json = Document;
  kind = document_kind;
  find = document_find;
  get_text = document_text;
  get_int64 = document_int;
  get_bool = λ d. false;
  elements = document_elements;
}

abbrev pub mapping_document : Document
mapping_document = object_of (
    member (codes "endpoint") (text_of (codes "/%{id}/v"))
      (member (codes "type") (text_of (codes "double")) end_of_object))

abbrev pub interface_document : Document
interface_document = object_of (
    member (codes "interface_name") (text_of (codes "a.B")) (
      member (codes "version_major") (int_of (pos 1)) (
        member (codes "version_minor") (int_of (pos 2)) (
          member (codes "type") (text_of (codes "datastream")) (
            member (codes "ownership") (text_of (codes "device")) (
              member (codes "mappings") (array_of (element mapping_document end_of_array))
                end_of_object))))))

-- Every text parses to the document above.
abbrev pub parse_document : Text → Option Document
parse_document = λ s. some interface_document

-- Documents as bytes, with a brace for each member.
abbrev pub builder : JsonBuilder doubles
builder = record {
  Json = List ℕ;
  null = [];
  from_int = λ n. b'0' ∷ [];
  from_double = λ x. (b'0' + x) ∷ [];
  from_bool = λ b. b'1' ∷ [];
  from_text = λ s. s;
  binary = λ bytes. bytes;
  array = λ js. b'[' ∷ [];
  emplace = λ j key x. b'{' ∷ j ++ key ++ x;
  is_empty = is_empty;
  dump = λ j. some j;
  to_bson = λ j. some j;
}
