-- ===== src/ErrorChain/Tests.antt =====
-- An error of the persistence that one of the pairing nests.
use astarte_device_sdk_cpp.Base.{Error, Option, none, some, codes, ◌≡◌, ◌↔◌, refl}
use astarte_device_sdk_cpp.ErrorChain.Nested.{ErrorBase, format_error, new_error, format_nested}
use astarte_device_sdk_cpp.Decimal.{to_decimal}
use astarte_device_sdk_cpp.ErrorChain.{
  class_of, make_error, with_message, with_code, made_class, made_message,
}
use astarte_device_sdk_cpp.ErrorChain.Classes.{make_error_iff}
use astarte_device_sdk_cpp.ErrorChain.Printed.{IsMade, outermost, nesting, format_error_injective}
use astarte_device_sdk_cpp.ErrorChain.Core.{new_grpc_lib_error_code}

abbrev no_error : Option ErrorBase
no_error = none

abbrev disk : ErrorBase
disk = make_error (with_message Error.file_open_error (codes "disk")) none

abbrev credential : ErrorBase
credential = make_error (with_message Error.write_credential_error (codes "key")) (some disk)

disk-IsMade : IsMade disk
unfolding made_message
disk-IsMade =
    outermost (with_message Error.file_open_error (codes "disk")) (cc, (cc, (cc, (cc, tt))))

credential-IsMade : IsMade credential
unfolding made_message
credential-IsMade =
    nesting (with_message Error.write_credential_error (codes "key")) disk (cc, (cc, (cc, tt)))
      disk-IsMade

credential_text :
    format_error credential ≡ codes "WriteCredentialError: key\n  -> FileOpenError: disk"
unfolding make_error class_of format_error new_error format_nested
credential_text = refl

unavailable_text :
    format_error (new_grpc_lib_error_code 14 (codes "gone") none)
    ≡ codes "GrpcLibError: code(14)-message(gone)"
unfolding new_grpc_lib_error_code format_error new_error to_decimal format_nested
unavailable_text = refl

format_error_injective_example : credential ≡ credential
format_error_injective_example =
    format_error_injective credential credential credential-IsMade credential-IsMade refl

make_error_iff_example :
    (make_error (with_code 14 (codes "gone")) no_error
      ≡ make_error (with_message Error.grpc_lib_error (codes "code(14)-message(gone)")) no_error)
    ↔ ((made_class (with_code 14 (codes "gone"))
          ≡ made_class (with_message Error.grpc_lib_error (codes "code(14)-message(gone)")))
        × (made_message (with_code 14 (codes "gone"))
            ≡ made_message (with_message Error.grpc_lib_error (codes "code(14)-message(gone)")))
        × (no_error ≡ no_error))
make_error_iff_example =
    make_error_iff (with_code 14 (codes "gone"))
      (with_message Error.grpc_lib_error (codes "code(14)-message(gone)")) no_error no_error
