-- ===== src/GrpcDevice/Querying.antt =====
-- The queries of stored properties.
use astarte_device_sdk_cpp.Base.{
  ◌≡◌, refl, ap, ◌∙◌, true, Option, none, List, [], ◌∷◌, map, Result, ok, arith,
}
use astarte_device_sdk_cpp.Data.{Ownership, Data}
use astarte_device_sdk_cpp.GrpcConverter.{AstarteDataClass, to_grpc}
use astarte_device_sdk_cpp.GrpcConverter.RoundTrip.{ReadsBack, from_grpc-to_grpc}
use astarte_device_sdk_cpp.GrpcConverter.Properties.{
  GrpcOwnership, ownership_from_grpc, ownership_to_grpc, StoredProperty,
  stored_properties_from_grpc,
}
use astarte_device_sdk_cpp.GrpcDevice.{
  Request, all_properties, Stub, DeviceGrpc, log, filter_of, query, get_all_properties,
}

ownership_back : (o : Ownership) → ownership_from_grpc (ownership_to_grpc o) ≡ o
ownership_back Ownership.device = refl
ownership_back Ownership.server = refl

module _ {D : Type 0} (grpc : AstarteDataClass D) where
  -- A stored property as the message hub sends it.
  unfoldable pub message_of :
      StoredProperty Ownership (Data D) → StoredProperty GrpcOwnership grpc.GrpcAstarteData
  message_of property = record {
    interface_name = property.interface_name;
    path = property.path;
    version_major = property.version_major;
    ownership = ownership_to_grpc property.ownership;
    value = to_grpc grpc property.value;
  }

  stored_back :
      (properties : List (StoredProperty Ownership (Data D)))
      → ReadsBack grpc
      → stored_properties_from_grpc grpc (map message_of properties) ≡ ok properties
  unfolding stored_properties_from_grpc message_of
  stored_back [] law = refl
  stored_back (property ∷ properties) law =
      rw
        (
          from_grpc-to_grpc grpc property.value law,
          stored_back properties law,
          ownership_back property.ownership,
        )
        refl

module _ {D : Type 0} {grpc : AstarteDataClass D} (stub : Stub grpc) where
  -- A connected device whose query is answered without an error returns what it reads.
  query-answered :
      {R : Type 0}
      → (r : Request grpc) (read : Result R) (device : DeviceGrpc grpc) → device.connected ≡ true
      → stub.status device.requests r ≡ none
      → query stub r read device ≡ (log r device, read)
  query-answered r read device c answered = ground arith

  -- The properties that `get_all_properties` returns are the stored ones, in their order and each
  -- with its own interface, path, version, owner and value, if the device is connected, the message
  -- hub answers without an error, and a field that was set is read back. The one request carries the
  -- owner that the application filters by.
  pub get_all_properties-stored :
      (device : DeviceGrpc grpc) (ownership : Option Ownership)
      (properties : List (StoredProperty Ownership (Data D)))
      → ReadsBack grpc
      → device.connected ≡ true
      → stub.status device.requests (all_properties (filter_of stub ownership)) ≡ none
      → stub.stored device.requests (all_properties (filter_of stub ownership))
        ≡ map (message_of grpc) properties
      → get_all_properties stub device ownership
        ≡ (log (all_properties (filter_of stub ownership)) device, ok properties)
  unfolding get_all_properties
  get_all_properties-stored device ownership properties law c answered stored =
      query-answered (all_properties (filter_of stub ownership)) _ device c answered
      ∙ ap
          (λ read. (
            log (all_properties (filter_of stub ownership)) device,
            stored_properties_from_grpc grpc read,
          ))
          stored
      ∙ ap (λ read. (log (all_properties (filter_of stub ownership)) device, read))
          (stored_back grpc properties law)
