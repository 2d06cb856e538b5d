-- ===== src/GrpcConverter/Properties.antt =====
-- The rest of src/grpc/grpc_converter.cpp: ownerships and stored properties.
use astarte_device_sdk_cpp.Base.{ℕ, List, [], ◌∷◌, Text, Result, ok, ◌>>=◌}
use astarte_device_sdk_cpp.Base.Int.{ℤ}
use astarte_device_sdk_cpp.Data.{Ownership, Data}
use astarte_device_sdk_cpp.GrpcConverter.{AstarteDataClass, from_grpc}

-- The generated enumeration, which may hold a number without a name.
pub data GrpcOwnership : Type 0 where
  grpc_device grpc_server : GrpcOwnership
  unrecognized : ℕ → GrpcOwnership

abbrev pub ownership_from_grpc : GrpcOwnership → Ownership
ownership_from_grpc grpc_device = Ownership.device
ownership_from_grpc _ = Ownership.server

-- The choice of `get_all_properties`.
abbrev pub ownership_to_grpc : Ownership → GrpcOwnership
ownership_to_grpc Ownership.device = grpc_device
ownership_to_grpc Ownership.server = grpc_server

-- `StoredProperty` of src/stored_property.cpp, and what is read of a stored property of the message
-- hub, which differ in the ownership and the value.
pub record StoredProperty (O V : Type 0) : Type 0 where
  pub interface_name : Text
  pub path : Text
  pub version_major : ℤ
  pub ownership : O
  pub value : V

module _ {D : Type 0} (grpc : AstarteDataClass D) where
  open grpc use {GrpcAstarteData}

  unfoldable pub stored_properties_from_grpc :
      List (StoredProperty GrpcOwnership GrpcAstarteData)
      → Result (List (StoredProperty Ownership (Data D)))
  stored_properties_from_grpc [] = ok []
  stored_properties_from_grpc (stored_property ∷ properties) = do
    converted_data ← from_grpc grpc stored_property.value
    stored_properties ← stored_properties_from_grpc properties
    ok (
        record {
          interface_name = stored_property.interface_name;
          path = stored_property.path;
          version_major = stored_property.version_major;
          ownership = ownership_from_grpc stored_property.ownership;
          value = converted_data;
        }
        ∷ stored_properties)
