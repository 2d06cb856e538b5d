-- ===== src/Lib.antt =====
-- The device side of the Astarte device SDK for C++: the MQTT transport, from an interface file
-- to the message that is published, the parts it shares with the gRPC transport, and the latter
-- with its connection thread.
--
-- A device is given interfaces, JSON documents that are parsed into an `Interface` with its
-- `Mapping`s, and keeps them in its `Introspection`. After a connection the callbacks of the
-- MQTT client set the session up: they subscribe, publish the introspection and empty the cache,
-- and the device counts as connected when all three requests have succeeded. A datum that is
-- sent is validated against the first mapping that its path matches, serialized to BSON, and
-- published under the quality of service of the interface.
--
-- Over gRPC a thread attaches to the message hub, reads its events into a queue that the
-- application polls, and tries again after a delay when an attempt is over; the application
-- sends and queries over the same stub. Each wait of the thread ends one of its turns, and the
-- turns are interleaved with the calls of the application in any order.
--
-- + Base.antt and its children: shared names, numbers, lists, texts (lists of bytes) and the
--   SDK's `expected<T, Error>` (include/astarte_device_sdk/errors.hpp) without the messages of
--   the errors.
-- + ErrorChain/: the classes of errors with their messages and nested errors, and their text:
--   include/astarte_device_sdk/errors.hpp, mqtt/errors.hpp below it, src/errors.cpp and
--   src/mqtt/errors.cpp. Classes.antt and Printed.antt are about them.
-- + Data.antt, Data/Names.antt, Data/Accessors.antt: include/astarte_device_sdk/type.hpp,
--   ownership.hpp and data.hpp, src/data.cpp.
-- + DatastreamObject.antt: src/object.cpp; Lookup.antt, Domain.antt, Equality.antt and Runs.antt
--   below it are about it.
-- + Formatting.antt: the formatters of include/astarte_device_sdk/formatter.hpp, data.hpp,
--   object.hpp, property.hpp, stored_property.hpp and msg.hpp, and src/msg.cpp; Interfaces.antt
--   below it is those of private/mqtt/interface.hpp and mapping.hpp.
-- + Messages.antt: the comparison of messages and stored properties in src/msg.cpp,
--   individual.cpp, property.cpp and stored_property.cpp; Equality.antt below it is about it.
-- + Json.antt: private/mqtt/helpers.hpp, over a JSON library that is a parameter.
-- + Policies/: the classes `Reliability`, `Retention`, `DatabaseRetentionPolicy`
--   (private/mqtt/mapping.hpp), `InterfaceType` and `InterfaceAggregation`
--   (private/mqtt/interface.hpp).
-- + EndpointPath.antt: the matching of src/mqtt/mapping.cpp (`pop_next_segment`,
--   `is_segment_match`, the body of `Mapping::match_path`); Joined.antt, Segments.antt and
--   Wildcards.antt below it are about its result.
-- + Mapping.antt: private/mqtt/mapping.hpp and src/mqtt/mapping.cpp.
-- + Interface.antt, Interface/Parse.antt: private/mqtt/interface.hpp and src/mqtt/interface.cpp;
--   Validation.antt, Quality.antt and Parse/Laws.antt below it are about them.
-- + OrderedMap.antt, Introspection.antt: the `std::map` behind the introspection, and
--   src/mqtt/introspection.cpp.
-- + Backoff.antt: private/exponential_backoff.hpp.
-- + Session.antt: src/mqtt/connection/callbacks.cpp and listener.cpp. The flag, the queue of
--   tokens and the requests are the state; Handshake.antt, First.antt, Topics.antt and
--   Payload.antt below it are about it. Decimal.antt is the printing of versions in it.
-- + Serialize.antt: src/mqtt/serialize.cpp, over a JSON library that builds documents.
-- + Connection.antt, Connection/Setup.antt: `send` and `disconnect`, and `create` and `connect`,
--   of src/mqtt/connection/connection.cpp; Laws.antt, Creation.antt and Disposal.antt are about
--   them.
-- + Base64.antt: the encoders of src/mqtt/pairing.cpp and
--   include/astarte_device_sdk/formatter.hpp; Places.antt and Decoding.antt below it are about
--   them.
-- + Pairing.antt: src/mqtt/pairing.cpp; Answers.antt below it is about it.
-- + Persistence.antt: src/mqtt/persistence.cpp; Shredding.antt, Removal.antt and Deletion.antt
--   below it are about it.
-- + Credentials.antt: src/mqtt/credentials.cpp; Storing.antt and Deleting.antt below it are
--   about it.
-- + Crypto.antt: src/mqtt/crypto.cpp, over the cryptographic library; Buffers.antt below it is
--   about it.
-- + Config.antt: src/mqtt/config.cpp and include/astarte_device_sdk/mqtt/config.hpp.
-- + DeviceMqtt.antt: src/mqtt/device_mqtt_impl.cpp. Lifecycle.antt below it puts a device
--   together with its connection, its files and the services it uses; its steps are the calls of
--   the application and the reports of the MQTT client, in any order. Preparing.antt,
--   Publishing.antt, Delivery.antt, Encoding.antt, Interfaces.antt, Keeping.antt, Accounts.antt,
--   Invariant.antt, Ordering.antt and Serving.antt are about them.
-- + GrpcConverter.antt, GrpcConverter/Properties.antt: src/grpc/grpc_converter.cpp, over the
--   generated class `AstarteData`; Timestamps.antt and RoundTrip.antt below it are about it.
-- + SharedQueue.antt: private/shared_queue.hpp.
-- + GrpcDevice.antt, GrpcDevice/Thread.antt: src/grpc/device_grpc_impl.cpp, the methods and the
--   connection thread, over the generated stub. Runs.antt interleaves the two; Queueing.antt,
--   Stopping.antt, Stuck.antt, Reconnection.antt, Sending.antt and Querying.antt are about them.
-- + Examples.antt: the data of the tests.
--
-- Stateful code passes its state: a method takes the state and returns the next one with its
-- result. The MQTT client is a function from the requests so far and the next one to a token, or
-- to nothing where the call throws; whether the wait for a token ends without an exception is
-- another parameter. The JSON library throws where it makes the text or the BSON of a document
-- with a string that is not UTF-8, or of a key with a zero byte; those calls have no result in
-- the model where they throw, and since nothing in the code catches them, the operations that
-- come to them return an Attempt: an exception, or a value or an error. The handlers of the
-- client run one at a time. Numbers are natural numbers; versions are checked against 32 bits
-- where the code does, and delays against the largest 64-bit count of milliseconds.
--
-- The loop of `match_path` runs on fuel, one more than the length of the path: each round takes
-- at least one byte off the path, so the loop ends by its own test before the fuel does. The
-- loop that overwrites a file runs on fuel, two more than the blocks of 4096 bytes in the file:
-- each round but the last writes a whole block. The digits of a number are printed with fuel one
-- more than the number. All other loops are over a list.
--
-- Not modelled: the contexts of the cryptographic library, the interceptor that names the node
-- in the requests over gRPC, and logging; what only logs, what ends the program as not
-- implemented yet, and the messages that the errors of the other components carry.
pub mod Base
pub mod Base64
pub mod Pairing
pub mod Persistence
pub mod Credentials
pub mod Config
pub mod Crypto
pub mod DatastreamObject
pub mod Formatting
pub mod Messages
pub mod EndpointPath
pub mod Data
pub mod Json
pub mod Policies
pub mod Mapping
pub mod Interface
pub mod OrderedMap
pub mod Introspection
pub mod Backoff
pub mod Decimal
pub mod Session
pub mod Serialize
pub mod Connection
pub mod DeviceMqtt
pub mod ErrorChain
pub mod Examples
pub mod GrpcConverter
pub mod SharedQueue
pub mod GrpcDevice
